-- ===== src/Resource/Types.antt =====
-- The types that are registered with the participant: rmw_connextdds_register_type_support and
-- rmw_connextdds_unregister_type_support of
-- rmw_connextdds_common/src/ndds/rmw_type_support_ndds.cpp, with all that endpoints hold.
use rmw_connextdds.Prelude.{
  ℕ, suc, ◌+◌, ◌-◌, ◌%◌, ◌^◌, Bool, false, ◌&&◌, not, List, [], ◌∷◌, Option, none, some, ◌==◌,
  if◌then◌else◌,
}
use rmw_connextdds.Names.Text.{Text, text_eq}
use rmw_connextdds.Ret.{Ret}

-- RMW_Connext_NddsTypePluginI: the address of its type support, and its uint32_t count.
pub record Plugin : Type 0 where
  pub wrapper : ℕ
  pub attached_count : ℕ

-- What is held: the participant's types with their plugins, the addresses of the type supports that
-- have not been deleted, the next address of the heap, and how many topics (each call that creates
-- or finds one wants one that deletes it), content-filtered topics, writers, readers, objects of
-- this implementation, handles of the RMW interface and copies of names there are.
pub record Held : Type 0 where
  pub types : List (Text × Plugin)
  pub supports : List ℕ
  pub next : ℕ
  pub topics : ℕ
  pub filtered : ℕ
  pub writers : ℕ
  pub readers : ℕ
  pub objects : ℕ
  pub handles : ℕ
  pub names : ℕ

-- How the calls end that a registration and its end make: whether the type support's constructor
-- throws nothing, and whether the sample pool, the type code, the type plugin, the registration and
-- its end succeed.
pub record TypeCalls : Type 0 where
  pub construct : Bool
  pub new_pool : Bool
  pub create_typecode : Bool
  pub new_plugin : Bool
  pub register_type : Bool
  pub unregister_type : Bool

-- DDS_DomainParticipant_get_typecode.
abbrev pub find_type : Text → List (Text × Plugin) → Option Plugin
find_type name [] = none
find_type name ((k, p) ∷ rest) = if text_eq k name then some p else find_type name rest

abbrev pub set_type : Text → Plugin → List (Text × Plugin) → List (Text × Plugin)
set_type name q [] = []
set_type name q ((k, p) ∷ rest) =
    if text_eq k name then (k, q) ∷ rest else (k, p) ∷ set_type name q rest

abbrev pub remove_type : Text → List (Text × Plugin) → List (Text × Plugin)
remove_type name [] = []
remove_type name ((k, p) ∷ rest) = if text_eq k name then rest else (k, p) ∷ remove_type name rest

abbrev pub remove_address : ℕ → List ℕ → List ℕ
remove_address a [] = []
remove_address a (x ∷ xs) = if x == a then xs else x ∷ remove_address a xs

-- `delete type_support`
abbrev pub delete_support : ℕ → Held → Held
delete_support a h = record h { supports = remove_address a h.supports }

-- The type support's address, `none` for a null pointer, and what `registered` is set to.
unfoldable pub register_type_support : TypeCalls → Text → Held → Option ℕ × Bool × Held
register_type_support T name h =
    let a = h.next in
    let h1 : Held = record h { supports = a ∷ h.supports; next = suc a } in
    if not T.construct then (none, false, h) else elim (find_type name h.types) [
      | some p ↦ (
        some a,
        false,
        record h1 {
          types =
              set_type name (record p { attached_count = (p.attached_count + 1) % 2 ^ 32 }) h.types;
        },
      )
      | none ↦
          if T.new_pool && (T.create_typecode && (T.new_plugin && T.register_type))
          then (
            some a,
            false,
            record h1 { types = (name, record { wrapper = a; attached_count = 1 }) ∷ h.types },
          )
          else (none, false, delete_support a h1)
    ]

unfoldable pub unregister_type_support : TypeCalls → Text → Held → Ret × Held
unregister_type_support T name h = elim (find_type name h.types) [
  | none ↦ (Ret.error, h)
  | some p ↦
      let n = (p.attached_count + (2 ^ 32 - 1)) % 2 ^ 32 in
      let h1 : Held = record h {
        types = set_type name (record p { attached_count = n }) h.types;
      } in
      if n == 0
      then (if T.unregister_type
          then (Ret.ok, record h { types = remove_type name h.types })
          else (Ret.error, h1))
      else (Ret.ok, h1)
]
