-- ===== src/Acknowledgements.antt =====
-- SiameseDecoder.cpp and SiameseEncoder.cpp together: the decoder writes its lost elements as loss
-- ranges, and the encoder's iterator reads them back.
pub mod Reported
pub mod Steps
pub mod Prefix
pub mod Seen
pub mod Fitting
pub mod Delivery
mod Tests
use tonk.Common.{ℕ, zero, suc, ◌+◌, ◌-◌, List, [], ◌∷◌, ◌++◌, if◌then◌else◌}
use tonk.Decoder.{DecoderWindow, lost_element}

-- The lost ones of the `n` elements from `element` on.
abbrev pub lost_elements : DecoderWindow → ℕ → ℕ → List ℕ
lost_elements window zero element = []
lost_elements window (suc n) element =
    let rest = lost_elements window n (element + 1) in
    if lost_element window element then element ∷ rest else rest

-- The end of the window, unless its last element was lost.
abbrev pub end_mark : DecoderWindow → List ℕ
end_mark window = if lost_element window (window.count - 1) then [] else window.count ∷ []

-- The lost elements from `element` on, and the end of the window.
abbrev pub missing : DecoderWindow → ℕ → List ℕ
missing window element = lost_elements window (window.count - element) element ++ end_mark window
