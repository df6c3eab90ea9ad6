-- ===== src/Names/Types.antt =====
-- Demangling undoes the mangling of message and service type names.
use mathlib.Core.List.{reverse, reverse-append}
use rmw_connextdds.Prelude.{
  ℕ, ◌+◌, ◌-◌, ◌^◌, ◌<◌, ◌≡◌, refl, sym, ap, ◌∙◌, ◌≢◌, inl, inr, true, false, List, [], ◌∷◌, ◌++◌,
  append-nil, append_assoc, none, some, arith, length, length-append, drop-append, take-append,
  ◌==◌, Option-cases,
}
use rmw_connextdds.Names.Text.{Text, codes, ok, starts_with, find, rfind, substr}
use rmw_connextdds.Names.Demangle.{
  dds_namespace, response_suffix, request_suffix, last_byte, sub_size, suffix_loop,
  demangle_if_ros_type, demangle_service_type_only,
}
use rmw_connextdds.Names.Mangle.{
  with_separator, create_message_type_name, create_type_name_request, create_type_name_response,
}
use rmw_connextdds.Names.Search.{rfind-append, rfind-At, find-append, find-none, starts_with-append}

last_byte-append : (x : Text) (c : ℕ) → last_byte (x ++ c ∷ []) ≡ ok c
last_byte-append [] c = refl
last_byte-append (a ∷ []) c = refl
last_byte-append (a ∷ b ∷ x) c = last_byte-append (b ∷ x) c

substr_first : (x y : Text) → substr (x ++ y) 0 (length x) ≡ ok x
substr_first x y = ground (arith, take-append x y)

substr_middle : (x y z : Text) → substr (x ++ (y ++ z)) (length x) (length y) ≡ ok y
substr_middle x y z =
    rw (drop-append x (y ++ z)) (ground (arith, take-append y z, length-append x (y ++ z)))

-- `dds_::` cannot overlap itself, so its first occurrence is the one that was written.
dds_namespace_border :
    (v s : Text)
    → v ≢ []
    → starts_with dds_namespace v ≡ false
    → starts_with dds_namespace (v ++ (dds_namespace ++ s)) ≡ false
dds_namespace_border [] s n h = absurd (n refl)
dds_namespace_border (a ∷ []) s n h = ground arith
dds_namespace_border (a ∷ b ∷ []) s n h = ground arith
dds_namespace_border (a ∷ b ∷ c ∷ []) s n h = ground arith
dds_namespace_border (a ∷ b ∷ c ∷ d ∷ []) s n h = ground arith
dds_namespace_border (a ∷ b ∷ c ∷ d ∷ e ∷ []) s n h = ground arith
dds_namespace_border (a ∷ b ∷ c ∷ d ∷ e ∷ f ∷ v) s n h = h

find-dds_namespace :
    (x s : Text)
    → find dds_namespace x ≡ none
    → find dds_namespace (x ++ (dds_namespace ++ s)) ≡ some (length x)
find-dds_namespace x s h =
    find-append dds_namespace x (dds_namespace ++ s)
      (λ u v e n. dds_namespace_border v s n (find-none dds_namespace x u v e h))
      (starts_with-append dds_namespace s)

-- The size arithmetic of `substr(start, size - start)` does not wrap here.
sub_size_at : (a b : ℕ) → b < 2 ^ 64 → sub_size (a + b + 1 - 1) a ≡ b
sub_size_at a b h = ground arith

sub_size_lem : (a b : ℕ) → b < 2 ^ 64 → sub_size (a + b) a ≡ b
sub_size_lem a b h = ground arith

-- The text of a type name, and the pieces that the demangling takes from it.
abbrev whole : Text → Text → Text → Text
whole sep name suffix = sep ++ (dds_namespace ++ (name ++ suffix))

length-whole :
    (sep name suffix : Text)
    → length (whole sep name suffix) ≡ length sep + 6 + length name + length suffix
length-whole sep name suffix =
    omega (arith, length-append sep (dds_namespace ++ (name ++ suffix)), length-append name suffix)

substr_name :
    (sep name suffix : Text)
    → substr (whole sep name suffix) (length sep + 6) (length name) ≡ ok name
substr_name sep name suffix =
    rw (append_assoc sep dds_namespace (name ++ suffix), length-append sep dds_namespace) at
      (substr_middle (sep ++ dds_namespace) name suffix)

abbrev second_byte : Text → ℕ
second_byte (a ∷ b ∷ s) = b
second_byte s = 0

-- No text ends both in a request's suffix and in a response's.
response-ne-request : (u y : Text) → u ++ response_suffix ≢ y ++ request_suffix
response-ne-request u y e =
    let r : reverse response_suffix ++ reverse u ≡ reverse request_suffix ++ reverse y =
      sym (reverse-append u response_suffix) ∙ ap reverse e ∙ reverse-append y request_suffix in
    let bytes : ◌≡◌ {A = ℕ} b'e' b't' = ap second_byte r in absurd (omega arith)

response_not_last_at :
    (y u v : Text) (j : ℕ)
    → y ++ request_suffix ≡ u ++ (response_suffix ++ v)
    → length u ≡ j
    → (length (y ++ request_suffix) - j - 10 == 0) ≡ false
response_not_last_at y u [] j e l = absurd (response-ne-request u y (rw append-nil at (sym e)))
response_not_last_at y u (c ∷ v) j e l =
    ground (arith, ap length e, length-append u (response_suffix ++ c ∷ v))

response_not_last :
    (y : Text) (j : ℕ)
    → rfind response_suffix (y ++ request_suffix) ≡ some j
    → (length (y ++ request_suffix) - j - 10 == 0) ≡ false
response_not_last y j h =
    let (u, v, e, l) = rfind-At response_suffix (y ++ request_suffix) j h in
    response_not_last_at y u v j e l

abbrev suffixes : List Text
suffixes = response_suffix ∷ request_suffix ∷ []

suffix_loop-response :
    (y : Text) → suffix_loop suffixes (some 0) (y ++ response_suffix) ≡ some (length y)
unfolding suffix_loop
suffix_loop-response y =
    rw (rfind-append y b'_' (codes "Response_"), suffix_loop)
      (ground (arith, length-append y response_suffix))

suffix_loop-request :
    (y : Text) → suffix_loop suffixes (some 0) (y ++ request_suffix) ≡ some (length y)
unfolding suffix_loop
suffix_loop-request y = elim (Option-cases (rfind response_suffix (y ++ request_suffix))) [
  | inl e ↦
      rw (e, suffix_loop, rfind-append y b'_' (codes "Request_"))
        (ground (arith, length-append y request_suffix))
  | inr (j, e) ↦
      rw (e, suffix_loop, response_not_last y j e, rfind-append y b'_' (codes "Request_"))
        (ground (arith, length-append y request_suffix))
]

module _ (find_and_replace : Text → Text → Text → Text) (ns name : Text) where
  -- A mangled message type name of fewer than 2 ^ 64 bytes, whose namespace does not hold the `dds_`
  -- part itself, gives back its namespace, with `::` replaced, and its name.
  pub demangle_if_ros_type-create_message_type_name :
      find dds_namespace (with_separator ns) ≡ none
      → length (create_message_type_name ns name true) < 2 ^ 64
      → demangle_if_ros_type find_and_replace (create_message_type_name ns name true)
        ≡ ok (find_and_replace (with_separator ns) (codes "::") (codes "/") ++ name)
  unfolding demangle_if_ros_type create_message_type_name
  demangle_if_ros_type-create_message_type_name h bound =
      let sep = with_separator ns in
      let w = whole sep name (b'_' ∷ []) in
      let total : length w ≡ length sep + 6 + length name + 1 = length-whole sep name (b'_' ∷ []) in
      let last : last_byte w ≡ ok b'_' =
        rw
          (
            ← append_assoc dds_namespace name (b'_' ∷ []),
            ← append_assoc sep (dds_namespace ++ name) (b'_' ∷ []),
          )
          (last_byte-append (sep ++ (dds_namespace ++ name)) b'_') in
      let size : sub_size (length w - 1) (length sep + 6) ≡ length name =
        rw total (sub_size_at (length sep + 6) (length name) (omega arith)) in
      rw (
        last,
        find-dds_namespace sep (name ++ b'_' ∷ []) h,
        demangle_if_ros_type,
        substr_first sep (dds_namespace ++ (name ++ b'_' ∷ [])),
        size,
        substr_name sep name (b'_' ∷ []),
      )

  -- What the two service names share: the suffix loop has found the suffix at the end.
  demangle_service_type-whole :
      (suffix : Text)
      → find dds_namespace (with_separator ns) ≡ none
      → length (whole (with_separator ns) name suffix) < 2 ^ 64
      → suffix_loop suffixes (some 0) (whole (with_separator ns) name suffix)
        ≡ some (length (with_separator ns ++ (dds_namespace ++ name)))
      → demangle_service_type_only find_and_replace (whole (with_separator ns) name suffix)
        ≡ ok (find_and_replace (with_separator ns) (codes "::") (codes "/") ++ name)
  unfolding demangle_service_type_only
  demangle_service_type-whole suffix h bound found =
      let sep = with_separator ns in
      let total : length (whole sep name suffix) ≡ length sep + 6 + length name + length suffix =
        length-whole sep name suffix in
      let at : length (sep ++ (dds_namespace ++ name)) ≡ length sep + 6 + length name =
        omega (arith, length-append sep (dds_namespace ++ name)) in
      let size : sub_size (length sep + 6 + length name) (length sep + 6) ≡ length name =
        sub_size_lem (length sep + 6) (length name) (omega arith) in
      rw (
        find-dds_namespace sep (name ++ suffix) h,
        demangle_service_type_only,
        found,
        at,
        substr_first sep (dds_namespace ++ (name ++ suffix)),
        size,
        substr_name sep name suffix,
      )

  -- The mangled names of a service's request and response types, of fewer than 2 ^ 64 bytes and with
  -- a namespace that does not hold the `dds_` part itself, give back the namespace, with `::`
  -- replaced, and the service's name.
  pub demangle_service_type_only-create_type_name :
      find dds_namespace (with_separator ns) ≡ none
      → length (create_type_name_request ns name true) < 2 ^ 64
      → length (create_type_name_response ns name true) < 2 ^ 64
      → (demangle_service_type_only find_and_replace (create_type_name_request ns name true)
          ≡ ok (find_and_replace (with_separator ns) (codes "::") (codes "/") ++ name))
        × (demangle_service_type_only find_and_replace (create_type_name_response ns name true)
            ≡ ok (find_and_replace (with_separator ns) (codes "::") (codes "/") ++ name))
  unfolding create_type_name_request create_type_name_response
  demangle_service_type_only-create_type_name h b c =
      let sep = with_separator ns in
      let y = sep ++ (dds_namespace ++ name) in
      (
        demangle_service_type-whole request_suffix h b (
            rw
              (
                ← append_assoc dds_namespace name request_suffix,
                ← append_assoc sep (dds_namespace ++ name) request_suffix,
              )
              (suffix_loop-request y)),
        demangle_service_type-whole response_suffix h c (
            rw
              (
                ← append_assoc dds_namespace name response_suffix,
                ← append_assoc sep (dds_namespace ++ name) response_suffix,
              )
              (suffix_loop-response y)),
      )
