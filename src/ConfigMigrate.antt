-- ===== src/ConfigMigrate.antt =====
-- internal/configmigrate: YAML objects (yaml.go) and the migrations of the configuration.
pub mod Versions
pub mod Migrate
pub mod Run
pub mod Frame
pub mod Additions
pub mod Progress
pub mod GroupLoop
pub mod Groups
use ad_guard_dnscli.Base.{
  ℕ, Bool, true, false, Option, none, some, List, [], ◌∷◌, ◌++◌, GoString, ◌==◌, string_eq, ℤ,
  if◌then◌else◌,
}
use ad_guard_dnscli.Errors.{
  Error, wrapf, errorf, sentinel, no_value, text, Result, ok, err, ◌>>=◌, ◌>>◌, check, wrap,
}
use ad_guard_dnscli.Golibs.{Golibs}

-- A decoded YAML value, with its dynamic Go type. The migrations also store a `timeutil.Duration`
-- (in nanoseconds) and a `SchemaVersion`.
mutual
  pub data Value : Type 0 where
    null : Value
    bool : Bool → Value
    int : ℤ → Value
    str : GoString → Value
    duration : ℕ → Value
    version : ℕ → Value
    arr : Items → Value
    obj : Fields → Value

  pub data Items : Type 0 where
    nil : Items
    cons : Value → Items → Items

  -- `yObj`, a map of strings.
  pub data Fields : Type 0 where
    end : Fields
    field : GoString → Value → Fields → Fields

unfoldable pub get : GoString → Fields → Option Value
get k end = none
get k (field j v o) = if j == k then some v else get k o

unfoldable pub put : GoString → Value → Fields → Fields
put k v end = field k v end
put k v (field j w o) = if j == k then field k v o else field j w (put k v o)

-- The keys of an object.
unfoldable pub keys : Fields → List GoString
keys end = []
keys (field k v o) = k ∷ keys o

-- The type assertions `val.(yObj)` and `val.(int)`.
abbrev pub as_obj : Value → Option Fields
as_obj (obj o) = some o
as_obj _ = none

abbrev pub as_int : Value → Option ℤ
as_int (int n) = some n
as_int _ = none

abbrev pub is_null : Value → Bool
is_null null = true
is_null _ = false

module _ (g : Golibs) {T : Type 0} (cast : Value → Option T) where
  abbrev assert_type : GoString → Option T → Result T
  assert_type key none = err (errorf "%s: unexpected type %T(%[2]v)" (text key ∷ []))
  assert_type key (some v) = ok v

  abbrev found_val : GoString → Option Value → Result T
  found_val key none = err (wrapf "%s: %w" (text key ∷ []) (sentinel no_value))
  found_val key (some val) = do
    check (g.not_nil_interface key (is_null val))
    assert_type key (cast val)

  unfoldable pub field_val : Fields → GoString → Result T
  field_val o key = found_val key (get key o)

-- `fmt.Errorf(strings.Join(chain, ": "), err)`, where the chain is some keys and "%w".
abbrev pub chain_error {ℓ} : {A : Type ℓ} → List GoString → Result A → Result A
chain_error chain = wrap "chain: %w" (texts chain)
  where
    texts : List GoString → List ad_guard_dnscli.Errors.Arg
    texts [] = []
    texts (k ∷ ks) = text k ∷ texts ks

-- The loop of `fieldChainVal`: the keys that are passed, the current key, and the keys after it.
-- There is no call without keys, which would panic.
module _ (g : Golibs) {T : Type 0} (cast : Value → Option T) where
  pub chain_from : List GoString → Fields → GoString → List GoString → Result T
  chain_from passed o key [] = chain_error passed (field_val g cast o key)
  chain_from passed o key (next ∷ keys) = do
    inner ← chain_error passed (field_val g as_obj o key)
    chain_from (passed ++ key ∷ []) inner next keys

  unfoldable pub field_chain_val : Fields → GoString → List GoString → Result T
  unfolding chain_from
  field_chain_val o key keys = chain_from [] o key keys

-- A write to the object that a chain of keys leads to: Go's maps are references, so that the
-- object which holds it changes too.
abbrev modify_value : (Fields → Fields) → Value → Value
modify_value f (obj o) = obj (f o)
modify_value f v = v

unfoldable pub modify : GoString → (Fields → Fields) → Fields → Fields
modify k f end = end
modify k f (field j v o) = if j == k then field j (modify_value f v) o else field j v (modify k f o)
