-- ===== src/Gateway/Buffer/Fifo.antt =====
-- The rows of `OfflineBuffer` (gateway.py) under push and pop_batch.
use mathlib.Core.Path.{subst}
use centralized_hvac_system.Prelude.{
  ℕ, zero, suc, ◌+◌, ◌/◌, ◌≤◌, ◌<◌, String, ◌≡◌, refl, sym, ap, Bool, false, not, List, [], ◌∷◌,
  ◌++◌, take, drop, select, length, leb, if◌then◌else◌, arith, Bool-cases, inl, inr, length-append,
  length-drop,
}
use centralized_hvac_system.Gateway.Buffer.{
  Body, Row, OfflineBuffer, max_rows, has_id, size, ids, delete_ids, make_room, payload_text, push,
  pop_batch,
}

module _ {F : Type 0} where
  -- The keys ascend, from `i` on and below `j`.
  abbrev pub IsAscending : ℕ → ℕ → List (Row F) → Type 0
  IsAscending i j [] = i ≤ j
  IsAscending i j (r ∷ rows) = (i ≤ r.id) × IsAscending (r.id + 1) j rows

  -- The keys ascend below the next one, and the table is not over its bound.
  abbrev pub IsWell : OfflineBuffer F → Type 0
  IsWell b = IsAscending 1 b.next_id b.rows × (length b.rows ≤ max_rows)

  weaken-IsAscending :
      (i i' j : ℕ) (rows : List (Row F)) → i ≤ i' → IsAscending i' j rows → IsAscending i j rows
  weaken-IsAscending i i' j [] h k = omega arith
  weaken-IsAscending i i' j (r ∷ rows) h k = (omega arith, k.1)

  drop-IsAscending :
      (n i j : ℕ) (rows : List (Row F)) → IsAscending i j rows → IsAscending i j (drop n rows)
  drop-IsAscending zero i j rows h = h
  drop-IsAscending (suc n) i j [] h = h
  drop-IsAscending (suc n) i j (r ∷ rows) h =
      weaken-IsAscending i (r.id + 1) j (drop n rows) (omega arith)
        (drop-IsAscending n (r.id + 1) j rows h.1)

  append-IsAscending :
      (i j : ℕ) (rows : List (Row F)) (r : Row F)
      → IsAscending i j rows
      → r.id ≡ j
      → IsAscending i (j + 1) (rows ++ r ∷ [])
  append-IsAscending i j [] r h e = (omega arith, omega arith)
  append-IsAscending i j (s ∷ rows) r h e = (h.0, append-IsAscending (s.id + 1) j rows r h.1 e)

  -- No key of the list is below `i`.
  has_id-below :
      (k i j n : ℕ) (rows : List (Row F))
      → k < i
      → IsAscending i j rows
      → has_id k (ids (take n rows)) ≡ false
  unfolding has_id
  has_id-below k i j zero rows h a = refl
  has_id-below k i j (suc n) [] h a = refl
  has_id-below k i j (suc n) (r ∷ rows) h a =
      ground (arith, has_id-below k (r.id + 1) j n rows (omega arith) a.1)

  keep_all :
      (l : List ℕ) (k : ℕ) (i j : ℕ) (rows : List (Row F))
      → k < i
      → IsAscending i j rows
      → select (λ r. not (has_id r.id (k ∷ l))) rows ≡ select (λ r. not (has_id r.id l)) rows
  unfolding has_id
  keep_all l k i j [] h a = refl
  keep_all l k i j (r ∷ rows) h a = ground (arith, keep_all l k (r.id + 1) j rows (omega arith) a.1)

  -- Deleting the keys of the first `n` rows drops those rows.
  delete_first :
      (n i j : ℕ) (rows : List (Row F))
      → IsAscending i j rows
      → select (λ r. not (has_id r.id (ids (take n rows)))) rows ≡ drop n rows
  unfolding has_id
  delete_first zero i j [] a = refl
  delete_first zero i j (r ∷ rows) a = ground (arith, delete_first zero (r.id + 1) j rows a.1)
  delete_first (suc n) i j [] a = refl
  delete_first (suc n) i j (r ∷ rows) a =
      let k = keep_all (ids (take n rows)) r.id (r.id + 1) j rows (omega arith) a.1 in
      ground (arith, k, delete_first n (r.id + 1) j rows a.1)

  -- On a well-formed buffer a batch is the oldest `n` rows, and what is left are the others, in
  -- order.
  pub pop_batch_lem :
      (n : ℕ) (b : OfflineBuffer F)
      → IsWell b
      → pop_batch n b ≡ (take n b.rows, record b { rows = drop n b.rows })
  unfolding pop_batch delete_ids
  pop_batch_lem n b w =
      ap (λ rows. (take n b.rows, record b { rows = rows })) (delete_first n 1 b.next_id b.rows w.0)

  pub make_room_lem :
      (b : OfflineBuffer F)
      → IsWell b
      → make_room b ≡ record b {
        rows = if leb max_rows (length b.rows) then drop (max_rows / 10) b.rows else b.rows;
      }
  unfolding make_room delete_ids size
  make_room_lem b w = elim (Bool-cases (leb max_rows (length b.rows))) [
    | inl full ↦ rw full (
        ap (λ rows. record b { rows = rows }) (delete_first (max_rows / 10) 1 b.next_id b.rows w.0))
    | inr space ↦ rw space refl
  ]

  -- A push adds its row at the end, after the oldest tenth was dropped from a full table.
  pub push_lem :
      {P : Type 0} (dumps : P → String) (now : F) (topic : String) (payload : Body P) (qos : ℕ)
      (retain : Bool) (b : OfflineBuffer F)
      → IsWell b
      → (push dumps now topic payload qos retain b).rows
        ≡ (if leb max_rows (length b.rows) then drop (max_rows / 10) b.rows else b.rows)
          ++ record {
            id = b.next_id;
            topic = topic;
            payload = payload_text dumps payload;
            qos = qos;
            retain = retain;
            created = now;
          }
            ∷ []
  unfolding push
  push_lem dumps now topic payload qos retain b w = rw (make_room_lem b w) refl

  make_room-IsWell :
      (b : OfflineBuffer F)
      → IsWell b
      → IsAscending 1 b.next_id (make_room b).rows
        × ((make_room b).next_id ≡ b.next_id)
        × (length (make_room b).rows < max_rows)
  make_room-IsWell b w = rw (make_room_lem b w) (elim (Bool-cases (leb max_rows (length b.rows))) [
    | inl full ↦ rw full (
      drop-IsAscending (max_rows / 10) 1 b.next_id b.rows w.0,
      refl,
      omega (arith, length-drop (max_rows / 10) b.rows, w.1),
    )
    | inr space ↦ rw space (w.0, refl, ground (arith, space))
  ])

  -- A push keeps the buffer well-formed: its keys ascend below the next one, and it holds at
  -- most 100000 rows.
  pub push-IsWell :
      {P : Type 0} (dumps : P → String) (now : F) (topic : String) (payload : Body P) (qos : ℕ)
      (retain : Bool) (b : OfflineBuffer F)
      → IsWell b
      → IsWell (push dumps now topic payload qos retain b)
  unfolding push
  push-IsWell dumps now topic payload qos retain b w =
      let (ascends, next, room) = make_room-IsWell b w in
      let b' = make_room b in
      let row : Row F = record {
        id = b'.next_id;
        topic = topic;
        payload = payload_text dumps payload;
        qos = qos;
        retain = retain;
        created = now;
      } in
      (
        append-IsAscending 1 b'.next_id b'.rows row
            (subst (λ n. IsAscending 1 n b'.rows) (sym next) ascends) refl,
        omega (arith, length-append b'.rows (row ∷ []), room),
      )

  pub pop_batch-IsWell : (n : ℕ) (b : OfflineBuffer F) → IsWell b → IsWell (pop_batch n b).1
  pop_batch-IsWell n b w =
      rw (pop_batch_lem n b w)
        (drop-IsAscending n 1 b.next_id b.rows w.0, omega (arith, length-drop n b.rows, w.1))
