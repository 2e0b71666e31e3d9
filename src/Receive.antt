-- ===== src/Receive.antt =====
-- TonkineseIncoming.cpp, `SessionIncoming::ProcessDatagram`: the nonce of a datagram is recovered,
-- checked against the strike register, authenticated and struck.
-- The tag test is an argument of the datagram: whether its tag is the expected one for a nonce.
pub mod Nonces
pub mod Once
pub mod Again
mod Tests
use tonk.Common.{ℕ, Bool, not, if◌then◌else◌, ◌==◌, List, [], ◌∷◌}
use tonk.StrikeRegister.{StrikeRegister, next_expected, expand, is_duplicate, accept}

pub record Datagram : Type 0 where
  pub nonce_bytes : ℕ
  pub partial_nonce : ℕ
  pub tag_matches : ℕ → Bool

-- `ignored_dupe` and `bad_checksum` are the two errors; a datagram that passes goes on with its nonce.
pub data Outcome : Type 0 where
  ignored_dupe bad_checksum : Outcome
  accepted : ℕ → Outcome

unfoldable pub nonce_of : StrikeRegister → Datagram → ℕ
nonce_of r d =
    if d.nonce_bytes == 0 then next_expected r else expand r d.partial_nonce d.nonce_bytes

unfoldable pub receive : StrikeRegister → Datagram → Outcome × StrikeRegister
receive r d =
    let nonce = nonce_of r d in
    if is_duplicate r nonce
    then (ignored_dupe, r)
    else if not (d.tag_matches nonce)
    then (bad_checksum, r)
    else (accepted nonce, accept r nonce)

-- The nonces that pass, in the order of the datagrams.
abbrev pub keep : Outcome → List ℕ → List ℕ
keep (accepted nonce) rest = nonce ∷ rest
keep ignored_dupe rest = rest
keep bad_checksum rest = rest

unfoldable pub receive_all : StrikeRegister → List Datagram → List ℕ
receive_all r [] = []
receive_all r (d ∷ ds) = let (outcome, r') = receive r d in keep outcome (receive_all r' ds)
