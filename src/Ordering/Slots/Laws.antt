-- ===== src/Ordering/Slots/Laws.antt =====
-- The slot that is found lies between the neighbours that the request names.
use kurultay.Base.{
  ℕ, zero, suc, ◌≤◌, ◌<◌, ◌≡◌, refl, ◌↔◌, inl, inr, Option, none, some, String, List, [], ◌∷◌,
  arith, length, get_elem?, Option-cases, ok,
}
use kurultay.Ordering.Slots.{
  Sibling, InsertionSlot, item_before, slice_slot, find_index, resolve_move_neighbors,
  resolve_create_neighbors,
}

module _ {Num : Type 0} where
  abbrev pub id_of : Option (Sibling Num) → Option ℕ
  id_of none = none
  id_of (some s) = some s.id

  -- A slot is an index of the list with the two rows around it.
  pub record IsSlice (xs : List (Sibling Num)) (slot : InsertionSlot Num) : Type 0 where
    pub in_range : slot.insertion_index ≤ length xs
    pub prev_eq : slot.prev ≡ item_before xs slot.insertion_index
    pub next_eq : slot.next ≡ get_elem? xs slot.insertion_index

  abbrev pub slice_at : List (Sibling Num) → ℕ → InsertionSlot Num
  slice_at xs i = record { insertion_index = i; prev = item_before xs i; next = get_elem? xs i }

  pub slice_at_lem :
      {xs : List (Sibling Num)} {slot : InsertionSlot Num}
      → IsSlice xs slot
      → slot ≡ slice_at xs slot.insertion_index
  slice_at_lem {slot} h =
      λ k. record { insertion_index = slot.insertion_index; prev = h.prev_eq k; next = h.next_eq k }

  pub record IsSlotFor (xs : List (Sibling Num)) (prev_id next_id : Option ℕ)
      (slot : InsertionSlot Num) : Type 0 where
    pub slice : IsSlice xs slot
    pub after_prev : (p : ℕ) → prev_id ≡ some p → id_of slot.prev ≡ some p
    pub before_next : (q : ℕ) → next_id ≡ some q → id_of slot.next ≡ some q
    pub at_end : prev_id ≡ none → next_id ≡ none → slot.insertion_index ≡ length xs

  pub find_index-get :
      (id : ℕ) (xs : List (Sibling Num)) (i : ℕ)
      → find_index id xs ≡ some i
      → (i < length xs) × (id_of (get_elem? xs i) ≡ some id)
  unfolding find_index
  find_index-get id [] i e = cc
  find_index-get id (x ∷ xs) zero e = ground arith
  find_index-get id (x ∷ xs) (suc i) e = ground (arith, find_index-get id xs i)

  pub slice_slot-IsSlice :
      (xs : List (Sibling Num)) (i : ℕ) → i ≤ length xs → IsSlice xs (slice_slot xs i)
  unfolding slice_slot
  slice_slot-IsSlice xs i le = record { in_range = le; prev_eq = refl; next_eq = refl }

  -- A slot that is found lies in the list, has the rows around it as its neighbours, and these are
  -- the rows that the request names; without a name it is the slot at the end.
  pub resolve_move-IsSlotFor :
      (xs : List (Sibling Num)) (prev_id next_id : Option ℕ) (slot : InsertionSlot Num)
      → resolve_move_neighbors xs prev_id next_id ≡ ok slot
      → IsSlotFor xs prev_id next_id slot
  unfolding resolve_move_neighbors
  resolve_move-IsSlotFor xs none none slot e = record {
    slice = record { in_range = ground arith; prev_eq = ground arith; next_eq = ground arith };
    after_prev = λ p h. cc;
    before_next = λ p h. cc;
    at_end = λ h k. ground arith;
  }
  resolve_move-IsSlotFor xs none (some q) slot e = elim (Option-cases (find_index q xs)) [
    | inl missed ↦ ground arith
    | inr (j, found) ↦
        let (below, same) = find_index-get q xs j found in
        record {
          slice = record {
            in_range = ground arith;
            prev_eq = ground arith;
            next_eq = ground arith;
          };
          after_prev = λ p h. cc;
          before_next = λ p h. ground arith;
          at_end = λ h k. cc;
        }
  ]
  resolve_move-IsSlotFor xs (some p) none slot e = elim (Option-cases (find_index p xs)) [
    | inl missed ↦ ground arith
    | inr (i, found) ↦
        let (below, same) = find_index-get p xs i found in
        record {
          slice = record {
            in_range = ground arith;
            prev_eq = ground arith;
            next_eq = ground arith;
          };
          after_prev = λ p h. ground arith;
          before_next = λ p h. cc;
          at_end = λ h k. cc;
        }
  ]
  resolve_move-IsSlotFor xs (some p) (some q) slot e = elim (Option-cases (find_index p xs)) [
    | inl missed ↦ ground arith
    | inr (i, found) ↦ elim (Option-cases (find_index q xs)) [
      | inl missed ↦ ground arith
      | inr (j, found') ↦
          let (below, same) = find_index-get p xs i found in
          let (below', same') = find_index-get q xs j found' in
          record {
            slice = record {
              in_range = ground arith;
              prev_eq = ground arith;
              next_eq = ground arith;
            };
            after_prev = λ p h. ground arith;
            before_next = λ p h. ground arith;
            at_end = λ h k. cc;
          }
    ]
  ]

  -- A created row goes behind the row that the request names, or to the end.
  pub resolve_create-IsSlotFor :
      (xs : List (Sibling Num)) (prev_id : Option ℕ) (message : String) (slot : InsertionSlot Num)
      → resolve_create_neighbors xs prev_id message ≡ ok slot
      → IsSlotFor xs prev_id none slot
  unfolding resolve_create_neighbors
  resolve_create-IsSlotFor xs none message slot e = record {
    slice = record { in_range = ground arith; prev_eq = ground arith; next_eq = ground arith };
    after_prev = λ p h. cc;
    before_next = λ p h. cc;
    at_end = λ h k. ground arith;
  }
  resolve_create-IsSlotFor xs (some p) message slot e = elim (Option-cases (find_index p xs)) [
    | inl missed ↦ ground arith
    | inr (i, found) ↦
        let (below, same) = find_index-get p xs i found in
        record {
          slice = record {
            in_range = ground arith;
            prev_eq = ground arith;
            next_eq = ground arith;
          };
          after_prev = λ p h. ground arith;
          before_next = λ p h. cc;
          at_end = λ h k. cc;
        }
  ]

  -- Creating behind a row, or at the end, finds the slot that a move behind it finds.
  pub resolve_create_iff_move :
      (xs : List (Sibling Num)) (prev_id : Option ℕ) (message : String) (slot : InsertionSlot Num)
      → (resolve_create_neighbors xs prev_id message ≡ ok slot)
        ↔ (resolve_move_neighbors xs prev_id none ≡ ok slot)
  unfolding resolve_create_neighbors resolve_move_neighbors
  resolve_create_iff_move xs none message slot = (λ e. e, λ e. e)
  resolve_create_iff_move xs (some p) message slot = elim (Option-cases (find_index p xs)) [
    | inl missed ↦ (λ e. ground arith, λ e. ground arith)
    | inr (i, found) ↦ (λ e. ground arith, λ e. ground arith)
  ]
