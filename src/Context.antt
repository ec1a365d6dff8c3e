-- ===== src/Context.antt =====
-- context/context.py: the immutable state that stages pass on.
--
-- `pyrsistent.PMap` is a library of its own: `Pmap M V` is what the code uses of it, over a type
-- `M` of maps and a type `V` of values, and `copy.deepcopy` with it, whose copies have equal values
-- under the same keys.
pub mod Merge
pub mod Progress
pub mod Laws
use fluxio.Prelude.{
  String, List, [], ◌∷◌, ◌++◌, Option, none, some, ◌≡◌, ◌==◌, if◌then◌else◌, contains, add, union,
}
use fluxio.Prelude.Dict.{Dict, lookup, insert, keys}
use fluxio.Errors.{Result, ok, err, key_error, merge_conflict_error, ◌>>=◌}

pub record Pmap {ℓ κ} (M : Type ℓ) (V : Type κ) : Type (ℓ ⊔ κ) where
  -- `pmap()`, `m.get(k)`, `m.set(k, v)`, `pmap(d)` and `dict(m)`
  pub empty : M
  pub get : M → String → Option V
  pub set : M → String → V → M
  pub of_dict : Dict V → M
  pub to_dict : M → Dict V
  -- `copy.deepcopy` of a dict, which is taken not to raise
  pub deepcopy : Dict V → Dict V
  pub get-empty : (k : String) → get empty k ≡ none
  pub get-set :
      (m : M) (k j : String) (v : V) → get (set m k v) j ≡ (if k == j then some v else get m j)
  pub get-of_dict : (d : Dict V) (k : String) → get (of_dict d) k ≡ lookup k d
  pub lookup-to_dict : (m : M) (k : String) → lookup k (to_dict m) ≡ get m k
  pub lookup-deepcopy : (d : Dict V) (k : String) → lookup k (deepcopy d) ≡ lookup k d

pub record Context {ℓ} (M : Type ℓ) : Type ℓ where
  pub entries : M  -- `_data`
  pub written : List String  -- `_written`
  pub name : String

-- The local variables of `merge`.
pub record Merging {ℓ} (M : Type ℓ) : Type ℓ where
  pub seen : Dict String
  pub conflicts : List String
  pub conflict_branches : List String
  pub merged_data : M
  pub merged_written : List String

module _ {ℓ κ} {M : Type ℓ} {V : Type κ} (P : Pmap M V) where
  -- An empty `initial` and a missing one both start from `pmap()`.
  unfoldable pub create : Option (Dict V) → String → Context M
  create none name = record { entries = P.empty; written = []; name = name }
  create (some []) name = record { entries = P.empty; written = []; name = name }
  create (some (e ∷ d)) name = record { entries = P.of_dict (e ∷ d); written = []; name = name }

  unfoldable pub get : Context M → String → Option V
  get c key = P.get c.entries key

  unfoldable pub get_item : Context M → String → Result V
  get_item c key = elim (P.get c.entries key) [ none ↦ err (key_error key) | some v ↦ ok v ]

  unfoldable pub set : Context M → String → V → Context M
  unfolding add
  set c key value = record c { entries = P.set c.entries key value; written = add key c.written }

  set_all : M → Dict V → M
  set_all m [] = m
  set_all m ((k, v) ∷ patch) = set_all (P.set m k v) patch

  unfoldable pub update : Context M → Dict V → Context M
  unfolding set_all union keys
  update c [] = c
  update c (e ∷ patch) = record c {
    entries = set_all c.entries (e ∷ patch);
    written = union c.written (keys (e ∷ patch));
  }

  unfoldable pub fork : Context M → String → Context M
  fork c branch_name = record { entries = c.entries; written = []; name = branch_name }

  -- `seen[key] = branch.name`, and the write; `branch._data[key]` raises on a missing key.
  unfoldable pub accept_key : Context M → String → Merging M → Result (Merging M)
  unfolding insert add
  accept_key branch key s = elim (P.get branch.entries key) [
    | none ↦ err (key_error key)
    | some v ↦ ok (record s {
      seen = insert key branch.name s.seen;
      merged_data = P.set s.merged_data key v;
      merged_written = add key s.merged_written;
    })
  ]

  unfoldable pub note_conflict : Context M → String → String → Merging M → Merging M
  unfolding contains
  note_conflict branch key earlier s = if contains key s.conflicts then s else record s {
    conflicts = s.conflicts ++ key ∷ [];
    conflict_branches = s.conflict_branches ++ earlier ∷ branch.name ∷ [];
  }

  -- The body of the loop over `branch._written`.
  unfoldable pub merge_key : Context M → String → Merging M → Result (Merging M)
  unfolding accept_key note_conflict lookup
  merge_key branch key s = elim (lookup key s.seen) [
    | none ↦ accept_key branch key s
    | some earlier ↦
        if earlier == branch.name
        then accept_key branch key s
        else ok (note_conflict branch key earlier s)
  ]

  unfoldable pub merge_keys : Context M → List String → Merging M → Result (Merging M)
  merge_keys branch [] s = ok s
  merge_keys branch (key ∷ rest) s = do s' ← merge_key branch key s; merge_keys branch rest s'

  unfoldable pub merge_branches : List (Context M) → Merging M → Result (Merging M)
  merge_branches [] s = ok s
  merge_branches (branch ∷ rest) s = do
    s' ← merge_keys branch branch.written s
    merge_branches rest s'

  unfoldable pub merge_start : Context M → Merging M
  merge_start base = record {
    seen = [];
    conflicts = [];
    conflict_branches = [];
    merged_data = base.entries;
    merged_written = base.written;
  }

  unfoldable pub merge_end : Context M → Merging M → Result (Context M)
  unfolding union
  merge_end base s = elim s.conflicts [
    | [] ↦ ok (record { entries = s.merged_data; written = s.merged_written; name = base.name })
    | key ∷ more ↦ err (merge_conflict_error (key ∷ more) (union [] s.conflict_branches))
  ]

  unfoldable pub merge : Context M → List (Context M) → Result (Context M)
  unfolding merge_branches merge_keys merge_key merge_start merge_end
  merge base branches = do s ← merge_branches branches (merge_start base); merge_end base s

  unfoldable pub snapshot : Context M → Dict V
  snapshot c = P.deepcopy (P.to_dict c.entries)

  unfoldable pub from_snapshot : Dict V → String → Option (List String) → Context M
  from_snapshot d name none = record {
    entries = P.of_dict (P.deepcopy d);
    written = [];
    name = name;
  }
  from_snapshot d name (some written) = record {
    entries = P.of_dict (P.deepcopy d);
    written = written;
    name = name;
  }
