-- ===== src/Maps/Cache.antt =====
-- TonkineseMaps.cpp: the recent address of `ConnectionAddrMap` is never seen in a reply.
use tonk.Common.{
  ℕ, ◌+◌, ◌*◌, ◌^◌, ◌≤◌, ◌<◌, ◌≡◌, refl, ◌∙◌, Bool, true, false, if◌then◌else◌, ◌==◌, Option, none,
  some, arith, inl, inr, ap, sym, Bool-cases, ==→eq,
}
use tonk.Maps.{find}
use tonk.Maps.Connections.{remove_connection}
use tonk.Maps.Operations.{is_connection}
use tonk.Maps.History.{insert_of, remove_of, update, Shows, Shows-le, insert-Shows, remove-Shows}
use tonk.Maps.Addresses.{
  ConnectionAddrMap, find_by_addr, insert_address, forget_recent, remove_address, change_address,
  Request, find_at, insert_at, remove_at, change_at, connection, success, handle, without, reply,
  after,
}

module _ (hasher : ℕ → ℕ) (is_unspecified : ℕ → Bool) (no_address : ℕ) where
  -- A recent address that is specified has the recent connection.
  abbrev pub IsCoherent : ℕ → Option ℕ → (ℕ → Option ℕ) → Type 0
  IsCoherent a recent f = is_unspecified a ≡ false → (c : ℕ) × (recent ≡ some c) × (f a ≡ some c)

  insert-IsCoherent :
      (a : ℕ) (recent : Option ℕ) (f : ℕ → Option ℕ) (k c : ℕ)
      → IsCoherent a recent f
      → IsCoherent a recent (update f (insert_of k c))
  unfolding update
  insert-IsCoherent a recent f k c coherent specified =
      let (d, at_recent, there) = coherent specified in
      (
        d,
        at_recent,
        elim (Bool-cases (a == k)) [
          | inl same ↦ rw (same, sym (==→eq a k same), there) refl
          | inr other ↦ rw other there
        ],
      )

  remove-IsCoherent :
      (a : ℕ) (recent : Option ℕ) (f : ℕ → Option ℕ) (k c : ℕ)
      → IsCoherent a recent f
      → is_connection recent c ≡ false
      → IsCoherent a recent (update f (remove_of k c))
  unfolding update
  remove-IsCoherent a recent f k c coherent other specified =
      let (d, at_recent, there) = coherent specified in
      (
        d,
        at_recent,
        elim (Bool-cases (a == k)) [
          | inl same ↦
              let kept = ap (λ o. is_connection o c) (sym at_recent) ∙ other in
              rw (same, sym (==→eq a k same), there, kept) refl
          | inr far ↦ rw far there
        ],
      )

  pub record ShowsAddresses (s : ConnectionAddrMap) (f : ℕ → Option ℕ) (n : ℕ) : Type 0 where
    pub shows : Shows hasher s.address_map f n
    pub coherent : IsCoherent s.recent_address s.recent_connection f

  -- A request answers as the finite map does, and leaves a map that shows the finite map after it.
  abbrev pub Answers : ConnectionAddrMap → (ℕ → Option ℕ) → ℕ → Request → Type 0
  Answers s f n req =
      (r : ConnectionAddrMap) × (handle hasher is_unspecified no_address s req
        ≡ some (reply is_unspecified f req, r))
      × ShowsAddresses r (after is_unspecified f req) (n + 1)

  pub same-ShowsAddresses :
      (s : ConnectionAddrMap) (f g : ℕ → Option ℕ) (n b : ℕ)
      → ShowsAddresses s f n
      → n ≤ b
      → ((q : ℕ) → f q ≡ g q)
      → ShowsAddresses s g b
  same-ShowsAddresses s f g n b v le same = record {
    shows =
        let shows = Shows-le hasher s.address_map f n b v.shows le in
        record {
          valid = shows.valid;
          shown = λ q. shows.shown q ∙ same q;
          few = shows.few;
          table_size = shows.table_size;
        };
    coherent = λ specified.
        let (d, at_recent, there) = v.coherent specified in
        (d, at_recent, sym (same s.recent_address) ∙ there);
  }

  module _ (s : ConnectionAddrMap) (f : ℕ → Option ℕ) (n : ℕ) (v : ShowsAddresses s f n) where
    pub find-Answers : (a : ℕ) → is_unspecified a ≡ false → Answers s f n (find_at a)
    unfolding handle reply after find_by_addr
    find-Answers a specified = elim (Bool-cases (a == s.recent_address)) [
      | inl same ↦
          let is_recent = ==→eq a s.recent_address same in
          let (d, at_recent, there) = v.coherent (ap is_unspecified (sym is_recent) ∙ specified) in
          (
            s,
            rw same
                (ap (λ o. some (connection o, s)) (at_recent ∙ sym there ∙ ap f (sym is_recent))),
            same-ShowsAddresses s f f n (n + 1) v (omega arith) (λ q. refl),
          )
      | inr other ↦ go other (f a) (v.shows.shown a) refl
    ]
      where
        go :
            (a == s.recent_address) ≡ false
            → (o : Option ℕ) → find hasher s.address_map a ≡ o
            → f a ≡ o
            → Answers s f n (find_at a)
        go other none at_a shown = (
          s,
          rw (other, at_a, shown) refl,
          same-ShowsAddresses s f f n (n + 1) v (omega arith) (λ q. refl),
        )
        go other (some c) at_a shown = (
          record s { recent_address = a; recent_connection = some c },
          rw (other, at_a, shown) refl,
          same-ShowsAddresses _ f f n (n + 1)
              (record { shows = v.shows; coherent = λ _. (c, refl, shown) }) (omega arith)
              (λ q. refl),
        )

    pub insert-Answers : (a c : ℕ) → 4 * n + 4 < 2 ^ 31 → Answers s f n (insert_at a c)
    unfolding handle reply after insert_address
    insert-Answers a c small = elim (Bool-cases (is_unspecified a)) [
      | inl missing ↦ (
        s,
        rw (handle, insert_address, missing) refl,
        same-ShowsAddresses s f _ n (n + 1) v (omega arith) (λ q. rw missing refl),
      )
      | inr specified ↦
          let (r, at_r, shows) = insert-Shows hasher s.address_map f n a c v.shows small in
          (
            record s { address_map = r },
            rw (handle, insert_address, specified, at_r) refl,
            same-ShowsAddresses _ (update f (insert_of a c)) _ (n + 1) (n + 1)
                (record { shows = shows; coherent = insert-IsCoherent _ _ f a c v.coherent })
                (omega arith) (λ q. rw specified refl),
          )
    ]

    -- After `forget_recent` the recent connection is another.
    forgot : (c : ℕ) → is_connection (forget_recent no_address s c).recent_connection c ≡ false
    unfolding forget_recent
    forgot c = elim (Bool-cases (is_connection s.recent_connection c)) [
      | inl same ↦ rw same refl
      | inr other ↦ rw other other
    ]

    forgot-ShowsAddresses :
        is_unspecified no_address ≡ true
        → (c : ℕ) → ShowsAddresses (forget_recent no_address s c) f n
    unfolding forget_recent
    forgot-ShowsAddresses missing c = record {
      shows = v.shows;
      coherent = elim (Bool-cases (is_connection s.recent_connection c)) [
        | inl same ↦ rw same (λ specified. absurd (ground (arith, missing, specified)))
        | inr other ↦ rw other v.coherent
      ];
    }

  module _ (s : ConnectionAddrMap) (f : ℕ → Option ℕ) (n : ℕ) (v : ShowsAddresses s f n) where
    -- `Remove` from the table of a map whose recent connection is another.
    removed-ShowsAddresses :
        (k c : ℕ)
        → is_connection s.recent_connection c ≡ false
        → ShowsAddresses
            (record s { address_map = (remove_connection hasher s.address_map k c).1 })
            (update f (remove_of k c))
            n
    removed-ShowsAddresses k c other =
        let (at_r, shows) = remove-Shows hasher s.address_map f n k c v.shows in
        record { shows = shows; coherent = remove-IsCoherent _ _ f k c v.coherent other }

  module _ (missing : is_unspecified no_address ≡ true) (s : ConnectionAddrMap) (f : ℕ → Option ℕ)
      (n : ℕ) (v : ShowsAddresses s f n) where
    -- The map after `forget_recent` and `Remove`.
    abbrev taken_out : ℕ → ℕ → ConnectionAddrMap
    taken_out a c =
        let s' = forget_recent no_address s c in
        record s' { address_map = (remove_connection hasher s'.address_map a c).1 }

    taken_out-ShowsAddresses :
        (a c : ℕ) → ShowsAddresses (taken_out a c) (update f (remove_of a c)) n
    taken_out-ShowsAddresses a c =
        removed-ShowsAddresses (forget_recent no_address s c) f n
          (forgot-ShowsAddresses s f n v missing c) a c (forgot s f n v c)

    pub remove-Answers : (a c : ℕ) → Answers s f n (remove_at a c)
    unfolding handle reply after remove_address
    remove-Answers a c = elim (Bool-cases (is_unspecified a)) [
      | inl nowhere ↦ (
        s,
        rw (handle, remove_address, nowhere) refl,
        same-ShowsAddresses s f _ n (n + 1) v (omega arith) (λ q. rw nowhere refl),
      )
      | inr specified ↦
          let s' = forget_recent no_address s c in
          let v' = forgot-ShowsAddresses s f n v missing c in
          let at_r = (remove-Shows hasher s'.address_map f n a c v'.shows).0 in
          (
            taken_out a c,
            rw (handle, remove_address, specified) (ap (λ b. some (success b, taken_out a c)) at_r),
            same-ShowsAddresses _ (update f (remove_of a c)) _ n (n + 1)
                (taken_out-ShowsAddresses a c) (omega arith) (λ q. rw specified refl),
          )
    ]

    -- The map of `ChangeAddress` before the new address goes in.
    abbrev vacated : ℕ → ℕ → ConnectionAddrMap
    vacated old c = if is_unspecified old then forget_recent no_address s c else taken_out old c

    vacated-ShowsAddresses :
        (old c : ℕ) → ShowsAddresses (vacated old c) (without is_unspecified f old c) n
    unfolding without
    vacated-ShowsAddresses old c = elim (Bool-cases (is_unspecified old)) [
      | inl nowhere ↦ rw nowhere (
          same-ShowsAddresses _ f _ n n (forgot-ShowsAddresses s f n v missing c) (omega arith)
            (λ q. rw nowhere refl))
      | inr specified ↦ rw specified (
          same-ShowsAddresses _ (update f (remove_of old c)) _ n n (taken_out-ShowsAddresses old c)
            (omega arith) (λ q. rw specified refl))
    ]

    pub change-Answers : (old new c : ℕ) → 4 * n + 4 < 2 ^ 31 → Answers s f n (change_at old new c)
    unfolding handle reply after change_address
    change-Answers old new c small =
        let w = vacated-ShowsAddresses old c in
        let g = without is_unspecified f old c in
        elim (Bool-cases (is_unspecified new)) [
          | inl nowhere ↦ (
            vacated old c,
            rw (handle, change_address, nowhere) refl,
            same-ShowsAddresses _ g _ n (n + 1) w (omega arith) (λ q. rw nowhere refl),
          )
          | inr specified ↦
              let (r, at_r, shows) =
                insert-Shows hasher (vacated old c).address_map g n new c w.shows small in
              (
                record (vacated old c) { address_map = r },
                rw (handle, change_address, specified, at_r) refl,
                same-ShowsAddresses _ (update g (insert_of new c)) _ (n + 1) (n + 1)
                    (record { shows = shows; coherent = insert-IsCoherent _ _ g new c w.coherent })
                    (omega arith) (λ q. rw specified refl),
              )
        ]
