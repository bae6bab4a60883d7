-- ===== src/AddressTable/Update.antt =====
-- `update_address_table` of src/utils.cpp: the nodes of an XML file, written to a new database. The
-- parser (libxhal) is a parameter: what `parseXML` and `getAllNodes` give, `none` for an exception.
-- LMDB is taken to store what it is given.
use package.text.Mathlib.Text.{◌==◌}
use package.text.Mathlib.TextEquality.{eq_iff}
use ctp7_modules.Prelude.{
  String, List, [], ◌∷◌, Option, none, some, if◌then◌else◌, ◌≡◌, ◌≢◌, refl, arith, ◌∙◌, sym,
  Bool-cases, inl, inr,
}
use ctp7_modules.Effect.{Card, M, World, ok, Request, text, pure, ◌>>◌, set_error, Bytes}
use ctp7_modules.AddressTable.{Node, serialize}

-- `std::unordered_map<std::string, Node>`, in the order of its iteration: no key stands twice.
abbrev pub Nodes : Type 0
Nodes = List (String × Node)

-- `m_parsed_at.erase(key)`
unfoldable pub erase : String → Nodes → Nodes
erase key [] = []
erase key ((k, n) ∷ l) = let rest = erase key l in if k == key then rest else (k, n) ∷ rest

-- The database: the keys and values that were put, the newest first.
abbrev pub Database : Type 0
Database = List (String × Bytes)

unfoldable pub get : Database → String → Option Bytes
get [] key = none
get ((k, v) ∷ db) key = if k == key then some v else get db key

-- The loop of `dbi.put(wtxn, key, value)`.
unfoldable pub put_all : Nodes → Database → Database
put_all [] db = db
put_all ((k, n) ∷ l) db = put_all l ((k, serialize n) ∷ db)

-- The old files are removed and the transaction committed, so the card's table is the new one; a
-- failed parse leaves the card as it is.
unfoldable pub update_address_table :
    {S : Type 0} → (String → Option Nodes) → Card S → Request → M S (Card S)
update_address_table parse card request = elim (parse (request.string "at_xml")) [
  | none ↦ set_error (text "XML parser failed") >> pure card
  | some nodes ↦ pure (record card { dbi = get (put_all (erase "top" nodes) []) })
]

-- What the map holds for a key.
unfoldable pub find : Nodes → String → Option Node
find [] key = none
find ((k, n) ∷ l) key = if k == key then some n else find l key

-- No key twice.
unfoldable pub IsMap : Nodes → Type 0
IsMap [] = Unit
IsMap ((k, n) ∷ l) = (find l k ≡ none) × IsMap l

serialized : Option Node → Option Bytes → Option Bytes
serialized none old = old
serialized (some n) old = some (serialize n)

put_all-get :
    (l : Nodes) (db : Database) (key : String)
    → IsMap l
    → get (put_all l db) key ≡ serialized (find l key) (get db key)
unfolding put_all get find serialized IsMap
put_all-get [] db key m = refl
put_all-get ((k, n) ∷ l) db key (fresh, m) =
    rw (put_all-get l ((k, serialize n) ∷ db) key m) (ground (arith, eq_iff k key))

erase-find :
    (l : Nodes) (key other : String) → key ≢ other → find (erase key l) other ≡ find l other
unfolding erase find
erase-find [] key other ne = refl
erase-find ((k, n) ∷ l) key other ne =
    ground (arith, eq_iff k key, eq_iff k other, erase-find l key other ne)

find_erased : (l : Nodes) (key : String) → find (erase key l) key ≡ none
unfolding erase find
find_erased [] key = refl
find_erased ((k, n) ∷ l) key = ground (arith, eq_iff k key, find_erased l key)

erase-IsMap : (l : Nodes) (key : String) → IsMap l → IsMap (erase key l)
unfolding erase IsMap
erase-IsMap [] key m = tt
erase-IsMap ((k, n) ∷ l) key (fresh, m) = elim (Bool-cases (k == key)) [
  | inl t ↦ rw (t, erase) (erase-IsMap l key m)
  | inr f ↦
      rw (f, erase)
        (erase-find l key k (λ p. ground (arith, p, eq_iff k key)) ∙ fresh, erase-IsMap l key m)
]

serialized-some :
    {o : Option Node} {n : Node} (old : Option Bytes)
    → o ≡ some n
    → serialized o old ≡ some (serialize n)
unfolding serialized
serialized-some old e = rw e

module _ {S : Type 0} (parse : String → Option Nodes) (card : Card S) (request : Request)
    (nodes : Nodes) (parsed : parse (request.string "at_xml") ≡ some nodes)
    (keys : IsMap nodes) where
  -- The table after an update that parsed.
  abbrev pub updated : Card S
  updated = record card { dbi = get (put_all (erase "top" nodes) []) }

  pub update_address_table_parsed :
      (w : World S) → update_address_table parse card request w ≡ (ok updated, w)
  unfolding update_address_table
  update_address_table_parsed w = rw (parsed, update_address_table) refl

  pub updated-entry :
      (name : String) (n : Node)
      → name ≢ "top"
      → find nodes name ≡ some n
      → updated.dbi name ≡ some (serialize n)
  updated-entry name n ne there =
      put_all-get (erase "top" nodes) [] name (erase-IsMap nodes "top" keys)
      ∙ serialized-some _ (erase-find nodes "top" name (λ p. ne (sym p)) ∙ there)
