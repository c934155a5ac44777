-- ===== src/Storage/Refined.antt =====
-- crates/storage/src/memory.rs: one write to `MemoryStorage`, beside the queue of its contract.
use mathlib.Core.Path.{subst}
use ndc.Common.{
  ℕ, suc, ◌-◌, true, false, ◌≡◌, refl, sym, ap, ◌∙◌, none, some, List, [], ◌∷◌, if◌then◌else◌, ltb,
  leb, push, length, length-push, arith, ◌==◌, Bool-cases, Option-cases, inl, inr,
}
use ndc.Common.Maps.{
  get, insert, remove, IsFunctional, nat_eq, get-insert, get-remove, insert-IsFunctional,
  remove-IsFunctional,
}
use ndc.Storage.{Shelf, evict, save, empty_shelf}
use ndc.Storage.Queue.{
  newest, put, put-new, put-old, keys, newest-none, get-push, push-IsFunctional, keys-push,
  keys-insert, length-insert,
}

module _ {V : Type 0} where
  -- A map and the ids of its entries in order hold the queue.
  pub record Represents (s : Shelf V) (q : List (ℕ × V)) : Type 0 where
    pub ordered : s.order ≡ keys q
    pub same : (k : ℕ) → get k s.entries ≡ get k q
    pub sized : length s.entries ≡ length q
    pub functional : IsFunctional s.entries
    pub unique : IsFunctional q

  length-remove :
      (k : ℕ) (v : V) (m : List (ℕ × V)) → get k m ≡ some v → suc (length (remove k m)) ≡ length m
  unfolding get remove
  length-remove k v [] h = absurd (ground arith)
  length-remove k v ((j, w) ∷ m) h = ground (arith, length-remove k v m)

  oldest_gone :
      (k : ℕ) (v : V) (q m : List (ℕ × V))
      → Represents (record { entries = m; order = keys ((k, v) ∷ q) }) ((k, v) ∷ q)
      → Represents (record { entries = remove k m; order = keys q }) q
  unfolding get
  oldest_gone k v q m r =
      let there : get k m ≡ some v = ground (arith, r.same k) in
      record {
        ordered = refl;
        same = λ j. ground (arith, get-remove k j m r.functional, r.same j, r.unique.0);
        sized = omega (arith, length-remove k v m there, r.sized);
        functional = remove-IsFunctional k m r.functional;
        unique = r.unique.1;
      }

  same_order :
      (s : Shelf V) (q : List (ℕ × V)) → Represents s q → Represents (record s { order = keys q }) q
  same_order s q r = record {
    ordered = refl;
    same = r.same;
    sized = r.sized;
    functional = r.functional;
    unique = r.unique;
  }

  evict-keys :
      (capacity : ℕ) (q m : List (ℕ × V))
      → Represents (record { entries = m; order = keys q }) q
      → Represents (evict capacity (keys q) m) (newest (capacity - 1) q)
  unfolding evict
  evict-keys capacity [] m r = r
  evict-keys capacity ((k, v) ∷ q) m r = elim (Bool-cases (leb capacity (length m))) [
    | inl full ↦
        let less : ltb (capacity - 1) (suc (length q)) ≡ true = ground (arith, r.sized) in
        rw (full, less) (evict-keys capacity q (remove k m) (oldest_gone k v q m r))
    | inr fits ↦
        let less : ltb (capacity - 1) (suc (length q)) ≡ false = ground (arith, r.sized) in
        rw (fits, less) r
  ]

  insert-Represents :
      (k : ℕ) (v : V) (s : Shelf V) (q : List (ℕ × V))
      → get k q ≡ none
      → Represents s q
      → Represents
          (record { entries = insert k v s.entries; order = push s.order k })
          (push q (k, v))
  insert-Represents k v s q new r = record {
    ordered = ap (λ o. push o k) r.ordered ∙ sym (keys-push k v q);
    same = λ j.
        get-insert k j v s.entries
        ∙ ap (λ o. if k == j then some v else o) (r.same j)
        ∙ sym (get-push k j v q new);
    sized = ground (arith, length-insert k v s.entries, r.same k, r.sized, length-push q (k, v));
    functional = insert-IsFunctional k v s.entries r.functional;
    unique = push-IsFunctional k v q new r.unique;
  }

  update-Represents :
      (k : ℕ) (v w : V) (s : Shelf V) (q : List (ℕ × V))
      → get k q ≡ some w
      → Represents s q
      → Represents (record s { entries = insert k v s.entries }) (insert k v q)
  update-Represents k v w s q old r = record {
    ordered = r.ordered ∙ sym (keys-insert k v w q old);
    same = λ j.
        get-insert k j v s.entries
        ∙ ap (λ o. if k == j then some v else o) (r.same j)
        ∙ sym (get-insert k j v q);
    sized = ground (arith, length-insert k v s.entries, length-insert k v q, r.same k, r.sized);
    functional = insert-IsFunctional k v s.entries r.functional;
    unique = insert-IsFunctional k v q r.unique;
  }

  save-new :
      (capacity k : ℕ) (v : V) (s : Shelf V)
      → get k s.entries ≡ none
      → let room = evict capacity s.order s.entries in
        save capacity k v s
        ≡ record { entries = insert k v room.entries; order = push room.order k }
  unfolding save
  save-new capacity k v s new = ground (arith, new)

  save-old :
      (capacity k : ℕ) (v w : V) (s : Shelf V)
      → get k s.entries ≡ some w
      → save capacity k v s ≡ record s { entries = insert k v s.entries }
  unfolding save
  save-old capacity k v w s old = ground (arith, old)

  pub save-Represents :
      (capacity k : ℕ) (v : V) (s : Shelf V) (q : List (ℕ × V))
      → Represents s q
      → Represents (save capacity k v s) (put capacity k v q)
  save-Represents capacity k v s q r = elim (Option-cases (get k q)) [
    | inl new ↦
        let here = r.same k ∙ new in
        let room =
          subst (λ o. Represents (evict capacity o s.entries) (newest (capacity - 1) q))
            (sym r.ordered) (evict-keys capacity q s.entries (same_order s q r)) in
        rw (put-new capacity k v q new, save-new capacity k v s here)
          (insert-Represents k v (evict capacity s.order s.entries) (newest (capacity - 1) q)
            (newest-none (capacity - 1) k q new) room)
    | inr (w, old) ↦
        let here = r.same k ∙ old in
        rw (put-old capacity k v w q old, save-old capacity k v w s here)
          (update-Represents k v w s q old r)
  ]

  pub empty-Represents : Represents (empty_shelf {V = V}) []
  empty-Represents = record {
    ordered = refl;
    same = λ k. refl;
    sized = refl;
    functional = tt;
    unique = tt;
  }
