-- ===== src/Resource/Filter.antt =====
-- The content filter of a client's replies, and the names of the topics of services.
use rmw_connextdds.Prelude.{
  ℕ, ◌+◌, ◌*◌, ◌/◌, ◌%◌, ◌≡◌, ◌<◌, ◌≤◌, refl, sym, ◌∙◌, ap, Bool, true, false, List, [], ◌∷◌, ◌++◌,
  length, length-append, append-nil, take_all, drop, drop-append, All, arith,
}
use rmw_connextdds.Names.Text.{Text, codes}
use rmw_connextdds.Names.Mangle.{create_topic_name, request_topic, reply_topic}
use rmw_connextdds.Resource.Publisher.{fq_topic_name}
use rmw_connextdds.Resource.Service.{hex_digit, hex, guid_field_name, reply_filter}

length-hex : (g : List ℕ) → length (hex g) ≡ length g * 2
length-hex [] = refl
length-hex (b ∷ g) = omega (arith, length-hex g)

hex_digit-injective : (a b : ℕ) → a < 16 → b < 16 → hex_digit a ≡ hex_digit b → a ≡ b
hex_digit-injective a b h k e = ground arith

abbrev pub IsByte : ℕ → Type 0
IsByte b = b < 256

byte_of_digits : (a b : ℕ) → a / 16 ≡ b / 16 → a % 16 ≡ b % 16 → a ≡ b
byte_of_digits a b h k = omega arith

hex-injective : (g k : List ℕ) → All IsByte g → All IsByte k → hex g ≡ hex k → g ≡ k
hex-injective [] [] p q e = refl
hex-injective [] (b ∷ k) p q e = absurd cc
hex-injective (a ∷ g) [] p q e = absurd cc
hex-injective (a ∷ g) (b ∷ k) (p, ps) (q, qs) e =
    let x : hex_digit (a / 16) ≡ hex_digit (b / 16) = cc in
    let y : hex_digit (a % 16) ≡ hex_digit (b % 16) = cc in
    let z : hex g ≡ hex k = cc in
    let u = hex_digit-injective (a / 16) (b / 16) (omega arith) (omega arith) x in
    let v = hex_digit-injective (a % 16) (b % 16) (omega arith) (omega arith) y in
    let w = byte_of_digits a b u v in let r = hex-injective g k ps qs z in cc

-- `<field> = &hex(`
abbrev field_is : Text
field_is = guid_field_name ++ codes " = &hex("

reply_filter_whole :
    (topic : Text) (g : List ℕ)
    → length g ≡ 16
    → reply_filter topic g ≡ record {
      cft_name = topic ++ (codes "_" ++ hex g);
      cft_filter = guid_field_name ++ (codes " = &hex(" ++ (hex g ++ codes ")"));
    }
unfolding reply_filter
reply_filter_whole topic g l =
    let x : length (topic ++ (codes "_" ++ hex g)) ≤ length topic + 1 + 16 * 2 =
      omega (arith, length-append topic (codes "_" ++ hex g), length-hex g) in
    let y : length (field_is ++ (hex g ++ codes ")")) ≤ length field_is + 16 * 2 + 1 = omega (
      arith,
      length-append field_is (hex g ++ codes ")"),
      length-append (hex g) (codes ")"),
      length-hex g,
    ) in
    rw
      (
        reply_filter,
        take_all (length topic + 1 + 16 * 2) (topic ++ (codes "_" ++ hex g)) x,
        take_all (length field_is + 16 * 2 + 1) (field_is ++ (hex g ++ codes ")")) y,
      )
      refl

-- For a GUID of 16 bytes, the filter of a client's replies fits in its buffer: it is the field, the
-- comparison and the digits of the GUID, whole. Two clients whose GUIDs differ have content-filtered
-- topics of different names on a topic.
pub reply_filter_lem :
    (topic : Text) (g : List ℕ)
    → length g ≡ 16
    → All IsByte g
    → ((reply_filter topic g).cft_filter
        ≡ guid_field_name ++ (codes " = &hex(" ++ (hex g ++ codes ")")))
      × ((k : List ℕ)
          → length k ≡ 16
          → All IsByte k
          → (reply_filter topic g).cft_name ≡ (reply_filter topic k).cft_name
          → g ≡ k)
reply_filter_lem topic g l a =
    let x = reply_filter_whole topic g l in
    (
      ap (λ f. f.cft_filter) x,
      λ k m b e.
          let y : topic ++ (codes "_" ++ hex g) ≡ topic ++ (codes "_" ++ hex k) =
            sym (ap (λ f. f.cft_name) x)
            ∙ (e ∙ ap (λ f. f.cft_name) (reply_filter_whole topic k m)) in
          let z : codes "_" ++ hex g ≡ codes "_" ++ hex k =
            sym (drop-append topic (codes "_" ++ hex g))
            ∙ (ap (drop (length topic)) y ∙ drop-append topic (codes "_" ++ hex k)) in
          hex-injective g k a b cc,
    )

-- RMW_Connext_Publisher::create and RMW_Connext_Subscriber::create take the names of a service's
-- topics as they are, whether or not ROS namespace conventions are avoided, if the service's name
-- begins with a slash.
pub fq_topic_name-request_topic :
    (svc_name : Text) (avoid : Bool)
    → (fq_topic_name (request_topic (b'/' ∷ svc_name) avoid) avoid
        ≡ request_topic (b'/' ∷ svc_name) avoid)
      × (fq_topic_name (reply_topic (b'/' ∷ svc_name) avoid) avoid
          ≡ reply_topic (b'/' ∷ svc_name) avoid)
unfolding fq_topic_name request_topic reply_topic create_topic_name
fq_topic_name-request_topic svc_name true = (append-nil _, append-nil _)
fq_topic_name-request_topic svc_name false = (refl, refl)
