-- ===== src/Maps/Requests.antt =====
-- TonkineseMaps.cpp: any sequence of requests to `ConnectionAddrMap`, against a finite map.
use tonk.Common.{
  ℕ, ◌+◌, ◌*◌, ◌^◌, ◌<◌, ◌≡◌, refl, Bool, true, Option, none, some, List, [], ◌∷◌, length, arith,
  inl,
}
use tonk.Maps.Insert.{find-empty}
use tonk.Maps.Addresses.{
  ConnectionAddrMap, initial, Request, find_at, insert_at, remove_at, change_at, handle_all, after,
  replies, is_proper, are_proper,
}
use tonk.Maps.Cache.{
  ShowsAddresses, Answers, find-Answers, insert-Answers, remove-Answers, change-Answers,
}

module _ (hasher : ℕ → ℕ) (is_unspecified : ℕ → Bool) (no_address : ℕ)
    (missing : is_unspecified no_address ≡ true) where
  request-Answers :
      (req : Request) (s : ConnectionAddrMap) (f : ℕ → Option ℕ) (n : ℕ)
      → ShowsAddresses hasher is_unspecified no_address s f n
      → 4 * n + 4 < 2 ^ 31
      → is_proper is_unspecified req ≡ true
      → Answers hasher is_unspecified no_address s f n req
  unfolding is_proper
  request-Answers (find_at a) s f n v small proper =
      find-Answers hasher is_unspecified no_address s f n v a (ground (arith, proper))
  request-Answers (insert_at a c) s f n v small proper =
      insert-Answers hasher is_unspecified no_address s f n v a c small
  request-Answers (remove_at a c) s f n v small proper =
      remove-Answers hasher is_unspecified no_address missing s f n v a c
  request-Answers (change_at old new c) s f n v small proper =
      change-Answers hasher is_unspecified no_address missing s f n v old new c small

  replies_from :
      (reqs : List Request) (s : ConnectionAddrMap) (f : ℕ → Option ℕ) (n : ℕ)
      → ShowsAddresses hasher is_unspecified no_address s f n
      → 4 * (n + length reqs) + 4 < 2 ^ 31
      → are_proper is_unspecified reqs ≡ true
      → (r : ConnectionAddrMap) × (handle_all hasher is_unspecified no_address s reqs
          ≡ some (replies is_unspecified f reqs, r))
  unfolding handle_all replies are_proper
  replies_from [] s f n v small proper = (s, refl)
  replies_from (req ∷ reqs) s f n v small proper =
      let (s', at_s', v') =
        request-Answers req s f n v (omega (arith, small)) (ground (arith, proper)) in
      let (r, at_r) =
        replies_from reqs s' (after is_unspecified f req) (n + 1) v' (omega (arith, small))
          (ground (arith, proper)) in
      (r, rw (handle_all, at_s', at_r) refl)

  -- For any sequence of fewer than 2 ^ 28 calls of `FindByAddr`, `InsertAddress`, `RemoveAddress` and
  -- `ChangeAddress` from a new map, with any hasher and any first value of the recent connection, every
  -- call returns and replies as a finite map without a recent address does. `FindByAddr` is only called
  -- with a specified address, and the default address is unspecified.
  pub handle_all-replies :
      (recent : Option ℕ) (reqs : List Request)
      → length reqs < 2 ^ 28
      → are_proper is_unspecified reqs ≡ true
      → (r : ConnectionAddrMap) × (handle_all hasher is_unspecified no_address
            (initial no_address recent)
            reqs
          ≡ some (replies is_unspecified (λ q. none) reqs, r))
  handle_all-replies recent reqs small proper =
      replies_from reqs (initial no_address recent) (λ q. none) 0
        (record {
          shows = record {
            valid = inl refl;
            shown = find-empty hasher;
            few = omega arith;
            table_size = omega arith;
          };
          coherent = λ specified. absurd (ground (arith, missing, specified));
        })
        (omega (arith, small)) proper
