-- ===== src/Qos/Lookup.antt =====
-- What the lists of profile names hold, and when a name is found in one.
use rmw_connextdds.Prelude.{
  ◌≡◌, ◌↔◌, inl, inr, refl, sym, List, [], ◌∷◌, ◌++◌, append_assoc, append-nil, arith, Bool,
  Bool-cases, true, false, if◌then◌else◌,
}
use mathlib.Core.List.{Memᴰ}
use rmw_connextdds.Names.Text.{Text, codes, text_eq, text_eq_self, text_eq→eq}
use rmw_connextdds.Ret.{Ret}
use rmw_connextdds.Qos.Profiles.{
  QosContext, default_qos_library, tag_request, tag_reply, has_lib, find_string_in_list,
}
use rmw_connextdds.Qos.Services.{
  Push, req, rep, both, run_pushes, library_pushes, default_pushes, list_clientservice_qos_profiles,
}

-- The names under one prefix, from the most specific to the least: `tag` says client or service,
-- `side` request or reply.
abbrev pub tagged : Text → Text → Text → List Text
tagged tag side base = (base ++ tag ++ side) ∷ (base ++ tag) ∷ []

abbrev pub all_names : Text → Text → Text → List Text
all_names tag side base = (base ++ tag ++ side) ∷ (base ++ tag) ∷ (base ++ side) ∷ base ∷ []

-- The names of one side of a client or service; `b` tells whether the context names a library.
abbrev pub side_if : Bool → QosContext → Text → Text → Text → List Text
side_if b c service tag side =
    let full = c.qos_ctx_namespace ++ c.qos_ctx_name in
    let lib = c.qos_library ++ codes "::" in
    let ros = default_qos_library ++ codes "::" in
    (if b
      then all_names tag side (lib ++ full ++ codes "/" ++ service)
        ++ tagged tag side (lib ++ c.qos_ctx_name ++ codes "/" ++ service)
        ++ ((lib ++ c.qos_ctx_name ++ codes "/" ++ service) ∷ [])
        ++ all_names tag side (lib ++ service)
        ++ tagged tag side lib
      else [])
    ++ all_names tag side (full ++ codes "::" ++ service)
    ++ tagged tag side (full ++ codes "::")
    ++ all_names tag side (ros ++ full ++ codes "/" ++ service)
    ++ tagged tag side (ros ++ c.qos_ctx_name ++ codes "/" ++ service)
    ++ ((ros ++ c.qos_ctx_name ++ service ++ side) ∷ (ros ++ c.qos_ctx_name ++ service) ∷ [])
    ++ all_names tag side (ros ++ service)
    ++ tagged tag side ros

abbrev pub side_profiles : QosContext → Text → Text → Text → List Text
side_profiles c service tag side = side_if (has_lib c) c service tag side

abbrev reqs_of : List Push → List Text
reqs_of [] = []
reqs_of (req s ∷ ps) = s ∷ reqs_of ps
reqs_of (rep s ∷ ps) = reqs_of ps
reqs_of (both s ∷ ps) = s ∷ reqs_of ps

abbrev reps_of : List Push → List Text
reps_of [] = []
reps_of (req s ∷ ps) = reps_of ps
reps_of (rep s ∷ ps) = s ∷ reps_of ps
reps_of (both s ∷ ps) = s ∷ reps_of ps

run_pushes_lem :
    (ps : List Push) (xs ys : List Text)
    → run_pushes ps (xs, ys) ≡ (xs ++ reqs_of ps, ys ++ reps_of ps)
unfolding run_pushes
run_pushes_lem [] xs ys = rw (append-nil xs, append-nil ys) refl
run_pushes_lem (req s ∷ ps) xs ys =
    rw (run_pushes_lem ps (xs ++ (s ∷ [])) ys, append_assoc xs (s ∷ []) (reqs_of ps)) refl
run_pushes_lem (rep s ∷ ps) xs ys =
    rw (run_pushes_lem ps xs (ys ++ (s ∷ [])), append_assoc ys (s ∷ []) (reps_of ps)) refl
run_pushes_lem (both s ∷ ps) xs ys =
    rw
      (
        run_pushes_lem ps (xs ++ (s ∷ [])) (ys ++ (s ∷ [])),
        append_assoc xs (s ∷ []) (reqs_of ps),
        append_assoc ys (s ∷ []) (reps_of ps),
      )
      refl

-- What the pushes leave, side by side with the names.
pushes-side :
    (b : Bool) (c : QosContext) (service tag : Text)
    → ((if b then reqs_of (library_pushes c service tag) else [])
          ++ reqs_of (default_pushes c service tag)
        ≡ side_if b c service tag tag_request)
      × ((if b then reps_of (library_pushes c service tag) else [])
            ++ reps_of (default_pushes c service tag)
          ≡ side_if b c service tag tag_reply)
unfolding library_pushes default_pushes
pushes-side true c service tag = (simp append_assoc, simp append_assoc)
pushes-side false c service tag = (simp append_assoc, simp append_assoc)

-- The code's names for the requests and for the replies of a client or service are the same list
-- of names, from the most specific to the least, once with the tag of requests and once with the
-- tag of replies, behind what the two vectors held.
pub list_clientservice_qos_profiles-side_profiles :
    (c : QosContext) (service tag : Text) (xs ys : List Text)
    → list_clientservice_qos_profiles c service tag (xs, ys) ≡ (
      Ret.ok,
      xs ++ side_profiles c service tag tag_request,
      ys ++ side_profiles c service tag tag_reply,
    )
unfolding list_clientservice_qos_profiles
list_clientservice_qos_profiles-side_profiles c service tag xs ys = elim (Bool-cases (has_lib c)) [
  | inl e ↦
      rw
        (
          e,
          run_pushes_lem (library_pushes c service tag) xs ys,
          run_pushes_lem (default_pushes c service tag)
              (xs ++ reqs_of (library_pushes c service tag))
              (ys ++ reps_of (library_pushes c service tag)),
          append_assoc xs (reqs_of (library_pushes c service tag))
              (reqs_of (default_pushes c service tag)),
          append_assoc ys (reps_of (library_pushes c service tag))
              (reps_of (default_pushes c service tag)),
        )
        (rw ((pushes-side true c service tag).0, (pushes-side true c service tag).1) refl)
  | inr e ↦
      rw (e, run_pushes_lem (default_pushes c service tag) xs ys)
        (rw ((pushes-side false c service tag).0, (pushes-side false c service tag).1) refl)
]

-- A name is found in a list of names exactly when it is one of them.
pub find_string_in_list-Mem :
    (names : List Text) (name : Text) → (find_string_in_list names name ≡ true) ↔ Memᴰ name names
unfolding find_string_in_list
find_string_in_list-Mem [] name = (λ h. absurd cc, λ m. elim m [ ])
find_string_in_list-Mem (x ∷ names) name = (
  λ h. elim (Bool-cases (text_eq x name)) [
    | inl e ↦ Memᴰ.head (sym (text_eq→eq x name e))
    | inr e ↦ Memᴰ.tail ((find_string_in_list-Mem names name).0 (ground (arith, e, h)))
  ],
  λ m. elim m [
    | Memᴰ.head e ↦ rw (← e, text_eq_self name) refl
    | Memᴰ.tail m' ↦ rw ((find_string_in_list-Mem names name).1 m') (ground arith)
  ],
)
