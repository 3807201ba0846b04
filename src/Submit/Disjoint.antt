-- ===== src/Submit/Disjoint.antt =====
-- Over any history of `sync_add_tx_data_end_offset` calls, failing ones among them, no two
-- transactions share an offset.
use arseeding.Prelude.{
  ℕ, ◌+◌, ◌≤◌, ◌<◌, Text, text_eq, text_eq_iff, ◌≡◌, ◌≢◌, refl, sym, ap, ◌∙◌, ◌⊎◌, inl, inr, List,
  [], ◌∷◌, All, arith, Bool-cases,
}
use arseeding.Effect.{Result, ok, err, not_exist}
use arseeding.Rawdb.Interface.{KeyValueDb}
use arseeding.Goar.Types.{Goar}
use arseeding.Store.Numbers.{u64_mod, parse_uint}
use arseeding.Store.Offsets.{
  generate_offset_key, load_tx_data_end_offset, is_exist_tx_data_end_offset,
}
use arseeding.Submit.Chunks.{sync_add_tx_data_end_offset}
use arseeding.Submit.Alloc.{IsAllocated, Grows, Ends, sync_add-Ends}

-- the size that a request asks for; text that is no number asks for nothing
size_of_result : Result ℕ → ℕ
size_of_result (ok n) = n
size_of_result (err e) = 0

unfoldable pub requested_size : Text → ℕ
unfolding size_of_result
requested_size s = size_of_result (parse_uint s)

unfoldable pub demand : List (Text × Text) → ℕ
demand [] = 0
demand ((r, s) ∷ requests) = requested_size s + demand requests

module _ ⦃kv : KeyValueDb⦄ ⦃g : Goar⦄ where
  -- the calls in turn, each from the store that the one before it left
  unfoldable pub sync_all : List (Text × Text) → kv.Db → kv.Db
  sync_all [] db = db
  sync_all ((r, s) ∷ requests) db = sync_all requests (sync_add_tx_data_end_offset r s db).0

module _ ⦃kv : KeyValueDb⦄ ⦃g : Goar⦄ (P : Text → Text → Type 0) where
  -- the ranges of two transactions have no offset in common
  pub record IsDisjoint (db : kv.Db) : Type 0 where
    pub apart :
        (r s r' s' : Text)
        → P r s
        → P r' s'
        → generate_offset_key r s ≢ generate_offset_key r' s'
        → (e e' n n' : ℕ) → load_tx_data_end_offset r s db ≡ ok e
        → load_tx_data_end_offset r' s' db ≡ ok e'
        → parse_uint s ≡ ok n
        → parse_uint s' ≡ ok n'
        → (e + n' ≤ e') ⊎ (e' + n ≤ e)

  pub record IsLaidOut (limit : ℕ) (db : kv.Db) : Type 0 where
    pub all : ℕ
    pub all_le : all ≤ limit
    pub allocated : IsAllocated all db
    pub disjoint : IsDisjoint db

  -- Two transactions with one key have one size.
  abbrev pub KeysTellSizes : Type 0
  KeysTellSizes =
      (r s r' s' : Text)
      → P r s
      → P r' s'
      → generate_offset_key r s ≡ generate_offset_key r' s'
      → s ≡ s'

  module _ (keys : KeysTellSizes) where
    -- the new range against an old one
    above :
        (all n : ℕ) (r s : Text) (db : kv.Db)
        → P r s
        → parse_uint s ≡ ok n
        → IsAllocated all db
        → (r1 s1 r2 s2 : Text) → P r1 s1
        → generate_offset_key r s ≡ generate_offset_key r1 s1
        → (e n1 : ℕ) → load_tx_data_end_offset r2 s2 db ≡ ok e
        → parse_uint s1 ≡ ok n1
        → e + n1 ≤ all + n
    above all n r s db p size a r1 s1 r2 s2 p1 same e n1 old size1 =
        let one : n ≡ n1 = cc (size, size1, ap parse_uint (keys r s r1 s1 p p1 same)) in
        omega (arith, a.bounded r2 s2 e old)

    old_or_new :
        (all n : ℕ) (r s : Text) (db db' : kv.Db)
        → Grows all n r s db db'
        → (r1 s1 : Text) (e : ℕ) → load_tx_data_end_offset r1 s1 db' ≡ ok e
        → ((e ≡ all + n) × (generate_offset_key r s ≡ generate_offset_key r1 s1))
          ⊎ (load_tx_data_end_offset r1 s1 db ≡ ok e)
    old_or_new all n r s db db' h r1 s1 e l =
        elim (Bool-cases (text_eq (generate_offset_key r s) (generate_offset_key r1 s1))) [
          | inl q ↦ inl (ground (arith, h.loads r1 s1), (text_eq_iff _ _).0 q)
          | inr q ↦ inr (ground (arith, h.loads r1 s1))
        ]

    Grows-IsDisjoint :
        (all n : ℕ) (r s : Text) (db db' : kv.Db)
        → P r s
        → parse_uint s ≡ ok n
        → IsAllocated all db
        → IsDisjoint db
        → Grows all n r s db db'
        → IsDisjoint db'
    Grows-IsDisjoint all n r s db db' p size a d h = record {
      apart = λ r1 s1 r2 s2 p1 p2 ne e1 e2 n1 n2 l1 l2 z1 z2.
          elim (old_or_new all n r s db db' h r1 s1 e1 l1) [
            | inl (top1, same1) ↦ elim (old_or_new all n r s db db' h r2 s2 e2 l2) [
              | inl (top2, same2) ↦ absurd (ne (sym same1 ∙ same2))
              | inr old2 ↦
                  inr (rw top1 (above all n r s db p size a r1 s1 r2 s2 p1 same1 e2 n1 old2 z1))
            ]
            | inr old1 ↦ elim (old_or_new all n r s db db' h r2 s2 e2 l2) [
              | inl (top2, same2) ↦
                  inl (rw top2 (above all n r s db p size a r2 s2 r1 s1 p2 same2 e1 n2 old1 z2))
              | inr old2 ↦ d.apart r1 s1 r2 s2 p1 p2 ne e1 e2 n1 n2 old1 old2 z1 z2
            ]
          ];
    }

    same-IsDisjoint :
        (db db' : kv.Db)
        → ((r s : Text) → load_tx_data_end_offset r s db' ≡ load_tx_data_end_offset r s db)
        → IsDisjoint db
        → IsDisjoint db'
    same-IsDisjoint db db' same d = record {
      apart = λ r1 s1 r2 s2 p1 p2 ne e1 e2 n1 n2 l1 l2.
          d.apart r1 s1 r2 s2 p1 p2 ne e1 e2 n1 n2 (sym (same r1 s1) ∙ l1) (sym (same r2 s2) ∙ l2);
    }

    -- one call, whose end is known
    Ends-IsLaidOut :
        (all n : ℕ) (r s : Text) (db : kv.Db)
        → P r s
        → parse_uint s ≡ ok n
        → IsAllocated all db
        → IsDisjoint db
        → (limit : ℕ) → all + n ≤ limit
        → (result : kv.Db × Result (Unit {0})) → Ends all n r s db result
        → IsLaidOut limit result.0
    Ends-IsLaidOut all n r s db p size a d limit le (db', ok u) h = record {
      all = all + n;
      all_le = le;
      allocated = h.allocated;
      disjoint = Grows-IsDisjoint all n r s db db' p size a d h;
    }
    Ends-IsLaidOut all n r s db p size a d limit le (db', err e) h = record {
      all = h.top;
      all_le = omega arith;
      allocated = h.allocated;
      disjoint = same-IsDisjoint db db' h.same d;
    }

    module _ (r s : Text) (p : P r s) (limit : ℕ) (db : kv.Db) (w : IsLaidOut limit db) where
      unchanged : (n : ℕ) → IsLaidOut (limit + n) db
      unchanged n = record {
        all = w.all;
        all_le = omega arith;
        allocated = w.allocated;
        disjoint = w.disjoint;
      }

      abbrev LaidOutAfter : ℕ → Type 0
      LaidOutAfter n = IsLaidOut (limit + n) (sync_add_tx_data_end_offset r s db).0

      -- by what the store knows of the transaction, and by its size
      sync_add_by :
          (known size : Result ℕ)
          → load_tx_data_end_offset r s db ≡ known
          → parse_uint s ≡ size
          → limit + size_of_result size < u64_mod
          → LaidOutAfter (size_of_result size)
      unfolding size_of_result sync_add_tx_data_end_offset is_exist_tx_data_end_offset
      sync_add_by (ok e) size k z room = rw k (unchanged (size_of_result size))
      sync_add_by (err not_exist) (ok n) k z room =
          Ends-IsLaidOut w.all n r s db p z w.allocated w.disjoint (limit + n)
            (omega (arith, w.all_le)) (sync_add_tx_data_end_offset r s db)
            (sync_add-Ends w.all n r s db w.allocated (omega (arith, w.all_le)) z k)
      sync_add_by (err not_exist) (err x) k z room = rw (k, z) (unchanged 0)
      sync_add_by (err _) size k z room = rw k (unchanged (size_of_result size))

      sync_add-IsLaidOut : limit + requested_size s < u64_mod → LaidOutAfter (requested_size s)
      unfolding requested_size
      sync_add-IsLaidOut room =
          sync_add_by (load_tx_data_end_offset r s db) (parse_uint s) refl refl room

    sync_all-IsLaidOut :
        (requests : List (Text × Text)) (limit : ℕ) (db : kv.Db)
        → All (λ (r, s). P r s) requests
        → IsLaidOut limit db
        → limit + demand requests < u64_mod
        → IsLaidOut (limit + demand requests) (sync_all requests db)
    unfolding sync_all demand
    sync_all-IsLaidOut [] limit db ps w room = record {
      all = w.all;
      all_le = omega (arith, w.all_le);
      allocated = w.allocated;
      disjoint = w.disjoint;
    }
    sync_all-IsLaidOut ((r, s) ∷ requests) limit db ps w room =
        let there : limit + requested_size s + demand requests
            ≡ limit + (requested_size s + demand requests) =
          omega arith in
        rw there at (
          sync_all-IsLaidOut requests (limit + requested_size s)
            (sync_add_tx_data_end_offset r s db).0 ps.1
            (sync_add-IsLaidOut r s ps.0 limit db w (omega arith)) (omega arith))

-- Let `P` be a predicate on data roots and sizes under which two transactions with one key have one
-- size. Take a store whose offsets are handed out up to `all`, none of them to two transactions under
-- `P`, and any requests under `P` that ask for fewer offsets than the words have left. After the
-- calls of `sync_add_tx_data_end_offset` for them, whether or not writes failed, two transactions
-- under `P` with different keys, with an end offset and a size each, have no offset in common.
pub sync_all-apart :
    ⦃kv : KeyValueDb⦄ ⦃g : Goar⦄ (P : Text → Text → Type 0) (requests : List (Text × Text))
    (all : ℕ) (db : kv.Db)
    → KeysTellSizes P
    → All (λ (r, s). P r s) requests
    → IsAllocated all db
    → IsDisjoint P db
    → all + demand requests < u64_mod
    → IsDisjoint P (sync_all requests db)
sync_all-apart P requests all db keys ps a d room =
    (sync_all-IsLaidOut P keys requests all db ps
      (record { all = all; all_le = omega arith; allocated = a; disjoint = d }) room).disjoint
