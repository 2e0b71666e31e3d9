-- ===== src/Receive/Tests.antt =====
-- A run of received datagrams, and the theorems at concrete ones.
use tonk.Common.{ℕ, ◌≡◌, refl, List, [], ◌∷◌, arith, ◌==◌}
use tonk.Counter.{lt, sub, add, counter_expand}
use tonk.StrikeRegister.{reset, is_duplicate, accept, expand, next_expected}
use tonk.Receive.{Datagram, receive, receive_all, nonce_of}
use tonk.Receive.Once.{Distinct, receive_all-Distinct}

-- A datagram whose tag was made for one nonce.
abbrev made_for : ℕ → ℕ → ℕ → Datagram
made_for nonce bytes partial = record {
  nonce_bytes = bytes;
  partial_nonce = partial;
  tag_matches = λ n. n == nonce;
}

-- The second comes twice, and the last has a wrong nonce field.
abbrev traffic : List Datagram
traffic =
    made_for 9 1 9 ∷ made_for 12 1 12 ∷ made_for 12 1 12 ∷ made_for 11 1 11 ∷ made_for 14 1 13 ∷ []

receive_all_run : receive_all (reset 0) traffic ≡ 9 ∷ 12 ∷ 11 ∷ []
unfolding receive_all receive nonce_of reset accept is_duplicate lt sub add counter_expand expand
    next_expected
receive_all_run = refl

receive_all-Distinct_example : Distinct (receive_all (reset 0) traffic)
receive_all-Distinct_example = receive_all-Distinct traffic (omega arith) (omega arith)
