-- ===== src/Assets/Listing.antt =====
-- The answer of `listAssets` of internal/binaryhandler/handler.go, read back by a reader of that one
-- form of JSON: an object with a number and a list of strings, without white space or escapes.
use mathlib.Core.List.{append-nil, append_assoc}
use cache_server_go.Base.{
  ℕ, ◌≡◌, refl, ap, sym, ◌∙◌, Bool, true, ◌&&◌, ◌||◌, not, Option, none, some, List, [], ◌∷◌, ◌++◌,
  Bytes, codes, length, All, ◌==◌, ltb, leb, if◌then◌else◌, arith,
}
use cache_server_go.Scripts.Decimal.{digits, digits-IsDigit, IsDigit}
use cache_server_go.Assets.Reports.{
  Report, report_error, json_text, listed, listed_after, list_assets,
}

-- Where the reader stands in a list: after its bracket, in a string, after one, or after a comma.
pub data Place : Type 0 where
  at_start : Place
  inside : Place
  after : Place
  at_next : Place

-- What JSON excludes from a string without escapes: a quote ends it.
abbrev pub is_plain : ℕ → Bool
is_plain c = not (c == b'"' || c == 0x5C || ltb c 0x20)

abbrev pub IsPlain : Bytes → Type 0
IsPlain key = All (λ c. is_plain c ≡ true) key

abbrev pub add_name : Bytes → Option (List Bytes) → Option (List Bytes)
add_name name none = none
add_name name (some names) = some (name ∷ names)

-- The end of the list and of the object, which is the end of the text.
abbrev pub finish : Bytes → Option (List Bytes)
finish [] = none
finish (c ∷ []) = if c == b'}' then some [] else none
finish (c ∷ d ∷ cs) = none

-- The strings of a list, from a place in it on, with what was read of the present one.
abbrev pub read_names : Place → Bytes → Bytes → Option (List Bytes)
read_names place name [] = none
read_names at_start name (c ∷ cs) =
    let string = read_names inside [] cs in
    if c == b'"' then string else if c == b']' then finish cs else none
read_names inside name (c ∷ cs) =
    let more = read_names inside (name ++ (c ∷ [])) cs in
    let done = read_names after [] cs in
    if is_plain c then more else if c == b'"' then add_name name done else none
read_names after name (c ∷ cs) =
    let next = read_names at_next [] cs in
    if c == b',' then next else if c == b']' then finish cs else none
read_names at_next name (c ∷ cs) =
    let string = read_names inside [] cs in if c == b'"' then string else none

-- The text after another at its front.
abbrev pub strip : Bytes → Bytes → Option Bytes
strip [] text = some text
strip (p ∷ ps) [] = none
strip (p ∷ ps) (c ∷ cs) = let more = strip ps cs in if c == p then more else none

-- The numeral at the front of a text, and what follows it.
abbrev pub numeral : Bytes → Bytes → Bytes × Bytes
numeral ns [] = (ns, [])
numeral ns (c ∷ cs) =
    let more = numeral (ns ++ (c ∷ [])) cs in
    if leb b'0' c && leb c b'9' then more else (ns, c ∷ cs)

abbrev pub bind {ℓ} : {A B : Type ℓ} → Option A → (A → Option B) → Option B
bind none f = none
bind (some a) f = f a

-- The numeral of the count and the names.
abbrev pub read_listing : Bytes → Option (Bytes × List Bytes)
read_listing text = bind (strip (codes "{\"count\":") text) (λ a.
    bind (strip (codes ",\"assets\":[") (numeral [] a).1)
      (λ b. bind (read_names at_start [] b) (λ names. some ((numeral [] a).0, names))))

numeral-digits :
    (ns xs rest : Bytes)
    → All IsDigit xs
    → numeral ns (xs ++ (b',' ∷ rest)) ≡ (ns ++ xs, b',' ∷ rest)
numeral-digits ns [] rest h = ap (λ x. (x, b',' ∷ rest)) (sym (append-nil ns))
numeral-digits ns (x ∷ xs) rest h = rw (is_digit x h.0) (
    numeral-digits (ns ++ (x ∷ [])) xs rest h.1
    ∙ ap (λ y. (y, b',' ∷ rest)) (append_assoc ns (x ∷ []) xs))
  where
    is_digit : (x : ℕ) → IsDigit x → (leb b'0' x && leb x b'9') ≡ true
    is_digit x h = ground (arith, h.0, h.1)

read_names-inside :
    (name key rest : Bytes)
    → IsPlain key
    → read_names inside name (key ++ (b'"' ∷ rest))
      ≡ add_name (name ++ key) (read_names after [] rest)
read_names-inside name [] rest h =
    ap (λ x. add_name x (read_names after [] rest)) (sym (append-nil name))
read_names-inside name (c ∷ cs) rest h = rw h.0 (
    read_names-inside (name ++ (c ∷ [])) cs rest h.1
    ∙ ap (λ x. add_name x (read_names after [] rest)) (append_assoc name (c ∷ []) cs))

-- A key, its quote, and more keys.
read_names-key :
    (key : Bytes) (keys : List Bytes)
    → IsPlain key
    → read_names after [] (listed_after keys ++ codes "]}") ≡ some keys
    → read_names inside [] (key ++ (b'"' ∷ listed_after keys) ++ codes "]}") ≡ some (key ∷ keys)
read_names-key key keys h rest =
    ap (read_names inside []) (append_assoc key (b'"' ∷ listed_after keys) (codes "]}"))
    ∙ read_names-inside [] key (listed_after keys ++ codes "]}") h
    ∙ ap (add_name key) rest

read_names-listed_after :
    (keys : List Bytes)
    → All IsPlain keys
    → read_names after [] (listed_after keys ++ codes "]}") ≡ some keys
unfolding listed_after
read_names-listed_after [] h = refl
read_names-listed_after (key ∷ keys) h =
    read_names-key key keys h.0 (read_names-listed_after keys h.1)

read_names-listed :
    (keys : List Bytes)
    → All IsPlain keys
    → read_names at_start [] (listed keys ++ codes "]}") ≡ some keys
unfolding listed
read_names-listed [] h = refl
read_names-listed (key ∷ keys) h = read_names-key key keys h.0 (read_names-listed_after keys h.1)

abbrev pub text_of : Report → Bytes
text_of (report_error text status) = text
text_of (json_text text) = text

-- Where no key has a quote, a backslash or a control character in it, a reader of the answer of
-- `listAssets` gets the decimal numeral of the number of keys, and the keys in the order of Redis.
pub read_listing-list_assets :
    (keys : List Bytes)
    → All IsPlain keys
    → read_listing (text_of (list_assets true (some keys))) ≡ some (digits (length keys), keys)
unfolding list_assets
read_listing-list_assets keys h =
    let ns = digits (length keys) in
    let rest = codes "\"assets\":[" ++ (listed keys ++ codes "]}") in
    ap
      (λ x.
        bind (strip (codes ",\"assets\":[") x.1)
          (λ b. bind (read_names at_start [] b) (λ names. some (x.0, names))))
      (numeral-digits [] ns rest (digits-IsDigit (length keys)))
    ∙ ap (λ x. bind x (λ names. some (ns, names))) (read_names-listed keys h)
