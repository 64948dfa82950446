-- ===== src/Gateway/Buffer.antt =====
-- The offline buffer of the edge gateway (gateway.py, `OfflineBuffer`): an SQLite table that is read
-- in the order of its AUTOINCREMENT key, so the model lists the rows in that order.
pub mod Fifo
use centralized_hvac_system.Prelude.{
  ℕ, ◌+◌, ◌/◌, String, Bool, true, false, not, ◌||◌, List, [], ◌∷◌, ◌++◌, map, take, select, length,
  leb, nat_eq, if◌then◌else◌,
}

-- What is given to `push`: a dictionary, which `json.dumps` turns into a text, or a text.
pub data Body (P : Type 0) : Type 0 where
  entries : P → Body P
  raw : String → Body P

pub record Row (F : Type 0) : Type 0 where
  pub id : ℕ
  pub topic : String
  pub payload : String
  pub qos : ℕ
  pub retain : Bool
  pub created : F

-- `next_id` is the key that AUTOINCREMENT gives next.
pub record OfflineBuffer (F : Type 0) : Type 0 where
  pub rows : List (Row F)
  pub next_id : ℕ

abbrev pub max_rows : ℕ
max_rows = 100000

-- The key is one of the list.
unfoldable pub has_id : ℕ → List ℕ → Bool
has_id i [] = false
has_id i (j ∷ l) = nat_eq i j || has_id i l

unfoldable pub payload_text : {P : Type 0} → (P → String) → Body P → String
payload_text dumps (entries p) = dumps p
payload_text dumps (raw s) = s

module _ {F : Type 0} where
  -- The table as it is created.
  abbrev pub new_buffer : OfflineBuffer F
  new_buffer = record { rows = []; next_id = 1 }

  -- `SELECT COUNT(*) FROM buffer`
  unfoldable pub size : OfflineBuffer F → ℕ
  size b = length b.rows

  abbrev pub ids : List (Row F) → List ℕ
  ids rows = map (λ r. r.id) rows

  -- `DELETE FROM buffer WHERE id IN (...)`
  unfoldable pub delete_ids : List ℕ → OfflineBuffer F → OfflineBuffer F
  unfolding has_id
  delete_ids l b = record b { rows = select (λ r. not (has_id r.id l)) b.rows }

  -- The oldest tenth of a full table is deleted to make room.
  unfoldable pub make_room : OfflineBuffer F → OfflineBuffer F
  unfolding size
  make_room b =
      if leb max_rows (size b) then delete_ids (ids (take (max_rows / 10) b.rows)) b else b

  -- `push`, at the time `now`
  unfoldable pub push :
      {P : Type 0}
      → (P → String)
      → F
      → String
      → Body P
      → ℕ
      → Bool
      → OfflineBuffer F
      → OfflineBuffer F
  push dumps now topic payload qos retain b =
      let b' = make_room b in
      let row : Row F = record {
        id = b'.next_id;
        topic = topic;
        payload = payload_text dumps payload;
        qos = qos;
        retain = retain;
        created = now;
      } in
      record { rows = b'.rows ++ row ∷ []; next_id = b'.next_id + 1 }

  -- `pop_batch`
  unfoldable pub pop_batch : ℕ → OfflineBuffer F → List (Row F) × OfflineBuffer F
  pop_batch n b = let rows = take n b.rows in (rows, delete_ids (ids rows) b)
