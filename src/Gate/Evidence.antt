-- ===== src/Gate/Evidence.antt =====
-- The JSON-like values that the rules put into the `evidence` of a finding (runtime/src/model.py).
use repository_quality_guard.Prelude.{
  String, Bool, true, false, List, [], ◌∷◌, Option, some, Dict, find,
}
use repository_quality_guard.Prelude.Integers.{ℤ}

mutual
  pub data Datum : Type 0 where
    nothing : Datum
    boolean : Bool → Datum
    integer : ℤ → Datum
    text : String → Datum
    array : Data → Datum
    object : Entries → Datum

  pub data Data : Type 0 where
    nil : Data
    cons : Datum → Data → Data

  pub data Entries : Type 0 where
    end : Entries
    entry : String → Datum → Entries → Entries

abbrev data_of {ℓ} : {A : Type ℓ} → (A → Datum) → List A → Data
data_of f [] = nil
data_of f (x ∷ xs) = cons (f x) (data_of f xs)

-- A list of one value for each element.
abbrev pub array_of {ℓ} : {A : Type ℓ} → (A → Datum) → List A → Datum
array_of f xs = array (data_of f xs)

abbrev entries_of : Dict Datum → Entries
entries_of [] = end
entries_of ((k, v) ∷ d) = entry k v (entries_of d)

abbrev pub object_of : Dict Datum → Datum
object_of d = object (entries_of d)

-- `evidence.get(key) is True`
abbrev pub is_true : Option Datum → Bool
is_true (some (boolean true)) = true
is_true _ = false

abbrev pub flag : String → Dict Datum → Bool
flag key evidence = is_true (find key evidence)
