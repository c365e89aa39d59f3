-- ===== src/Config/Slices.antt =====
-- What `envSlice` reads from a comma-separated list.
use mathlib.Core.List.{append_assoc, append-nil}
use cache_server_go.Base.{
  ℕ, ◌≡◌, ◌≢◌, refl, ap, sym, ◌∙◌, false, List, [], ◌∷◌, ◌++◌, Bytes, arith, if◌then◌else◌, ◌==◌,
  All, codes, inl, inr, cons_ne_nil,
}
use cache_server_go.Config.Utf8.{
  runes, runes_from, concat, to_valid, NoComma, IsRune, runes_from-IsRune,
}
use cache_server_go.Config.Joined.{to_valid-comma}
use cache_server_go.Config.Env.{
  Environment, is_comma, if_set, append_part, slice_from, if_any, env_slice, load,
}

-- The text cut at every comma: always at least one part.
abbrev pub split : Bytes → Bytes → List Bytes
split part [] = part ∷ []
split part (c ∷ cs) = if c == b',' then part ∷ split [] cs else split (part ++ (c ∷ [])) cs

abbrev pub drop_empty : List Bytes → List Bytes
drop_empty [] = []
drop_empty ([] ∷ ps) = drop_empty ps
drop_empty ((x ∷ xs) ∷ ps) = (x ∷ xs) ∷ drop_empty ps

append_part_lem :
    (result : List Bytes) (part : Bytes) (ps : List Bytes)
    → append_part result part ++ drop_empty ps ≡ result ++ drop_empty (part ∷ ps)
unfolding append_part
append_part_lem result [] ps = refl
append_part_lem result (x ∷ xs) ps = append_assoc result ((x ∷ xs) ∷ []) (drop_empty ps)

-- The bytes of an item join the current part.
split-item :
    (part x rest : Bytes) → All (λ c. c ≢ b',') x → split part (x ++ rest) ≡ split (part ++ x) rest
split-item part [] rest h = ap (λ p. split p rest) (sym (append-nil part))
split-item part (c ∷ cs) rest h = rw (ne→== c b',' h.0) (
    split-item (part ++ (c ∷ [])) cs rest h.1
    ∙ ap (λ p. split p rest) (append_assoc part (c ∷ []) cs))
  where
    ne→== : (a b : ℕ) → a ≢ b → (a == b) ≡ false
    ne→== a b n = ground arith

is_comma-NoComma : (r : Bytes) → NoComma r → is_comma r ≡ false
is_comma-NoComma [] h = refl
is_comma-NoComma (c ∷ []) h = other c h.0
  where
    other : (c : ℕ) → c ≢ b',' → (c == b',') ≡ false
    other c n = ground arith
is_comma-NoComma (c ∷ d ∷ cs) h = refl

-- The loop collects the parts that are not empty.
slice_from-split :
    (result : List Bytes) (part : Bytes) (rs : List Bytes)
    → All IsRune rs
    → slice_from result part rs ≡ result ++ drop_empty (split part (concat rs))
unfolding slice_from
slice_from-split result part [] h =
    sym (append-nil (append_part result part)) ∙ append_part_lem result part []
slice_from-split result part (r ∷ rs) h = elim h.0 [
  | inl comma ↦ rw comma (
      slice_from-split (append_part result part) [] rs h.1
      ∙ append_part_lem result part (split [] (concat rs)))
  | inr other ↦ rw (is_comma-NoComma r other) (
      slice_from-split result (part ++ r) rs h.1
      ∙ ap (λ ps. result ++ drop_empty ps) (sym (split-item part r (concat rs) other)))
]

-- The items with a comma between each two.
abbrev pub join : List Bytes → Bytes
join [] = []
join (x ∷ []) = x
join (x ∷ y ∷ ys) = x ++ (b',' ∷ join (y ∷ ys))

abbrev pub IsItem : Bytes → Type 0
IsItem x = All (λ c. c ≢ b',') x × (x ≢ [])

split-join :
    (x : Bytes) (xs : List Bytes) → All (λ y. IsItem y) (x ∷ xs) → split [] (join (x ∷ xs)) ≡ x ∷ xs
split-join x [] h = ap (split []) (sym (append-nil x)) ∙ split-item [] x [] h.0.0
split-join x (y ∷ ys) h =
    split-item [] x (b',' ∷ join (y ∷ ys)) h.0.0 ∙ ap (◌∷◌ x) (split-join y ys h.1)

drop_empty_items : (xs : List Bytes) → All (λ y. IsItem y) xs → drop_empty xs ≡ xs
drop_empty_items [] h = refl
drop_empty_items ([] ∷ xs) h = absurd (h.0.1 refl)
drop_empty_items ((x ∷ y) ∷ xs) h = ap (◌∷◌ (x ∷ y)) (drop_empty_items xs h.1)

-- Whatever the variable holds: each byte of it that is not part of valid UTF-8 counts as U+FFFD, and
-- the result is the list of the comma-separated parts that are not empty, or the fallback if there
-- is none.
pub env_slice-split :
    (e : Environment) (key : Bytes) (fallback : List Bytes)
    → env_slice e key fallback ≡ if_any (drop_empty (split [] (to_valid (e.getenv key)))) fallback
unfolding env_slice runes_from
env_slice-split e key fallback = at (e.getenv key)
  where
    at :
        (v : Bytes)
        → if_set v fallback (λ w. if_any (slice_from [] [] (runes w)) fallback)
          ≡ if_any (drop_empty (split [] (to_valid v))) fallback
    at [] = refl
    at (c ∷ cs) =
        ap (λ r. if_any r fallback)
          (slice_from-split [] [] (runes (c ∷ cs)) (runes_from-IsRune 0 (c ∷ cs)))

abbrev pub IsUtf8 : Bytes → Type 0
IsUtf8 x = to_valid x ≡ x

join-IsUtf8 : (x : Bytes) (xs : List Bytes) → All (λ y. IsUtf8 y) (x ∷ xs) → IsUtf8 (join (x ∷ xs))
join-IsUtf8 x [] h = h.0
join-IsUtf8 x (y ∷ ys) h =
    to_valid-comma x (join (y ∷ ys))
    ∙ ap (λ z. z ++ (b',' ∷ to_valid (join (y ∷ ys)))) h.0
    ∙ ap (λ z. x ++ (b',' ∷ z)) (join-IsUtf8 y ys h.1)

-- A list of items, each valid UTF-8, none empty and none with a comma, is read back from the
-- variable that holds them joined by commas.
pub env_slice-join :
    (e : Environment) (key : Bytes) (fallback : List Bytes) (x : Bytes) (xs : List Bytes)
    → All (λ y. IsItem y) (x ∷ xs)
    → All (λ y. IsUtf8 y) (x ∷ xs)
    → e.getenv key ≡ join (x ∷ xs)
    → env_slice e key fallback ≡ x ∷ xs
unfolding if_any
env_slice-join e key fallback x xs h valid v =
    env_slice-split e key fallback
    ∙ ap (λ p. if_any (drop_empty (split [] (to_valid p))) fallback) v
    ∙ ap (λ p. if_any (drop_empty (split [] p)) fallback) (join-IsUtf8 x xs valid)
    ∙ ap (λ p. if_any (drop_empty p) fallback) (split-join x xs h)
    ∙ ap (λ p. if_any p fallback) (drop_empty_items (x ∷ xs) h)

-- A list that holds something, and only parts that are not empty.
abbrev pub IsAddressList : List Bytes → Type 0
IsAddressList xs = (xs ≢ []) × All (λ x. x ≢ []) xs

drop_empty-All : (ps : List Bytes) → All (λ x. x ≢ []) (drop_empty ps)
drop_empty-All [] = tt
drop_empty-All ([] ∷ ps) = drop_empty-All ps
drop_empty-All ((x ∷ xs) ∷ ps) = (cons_ne_nil x xs, drop_empty-All ps)

if_any-IsAddressList :
    (rs fallback : List Bytes)
    → All (λ x. x ≢ []) rs
    → IsAddressList fallback
    → IsAddressList (if_any rs fallback)
unfolding if_any
if_any-IsAddressList [] fallback h f = f
if_any-IsAddressList (r ∷ rs) fallback h f = ((λ e. cc), h)

-- Whatever the environment, `Load` gives at least one Redis address, and none that is empty: the
-- `addrs[0]` of `NewL2` is never out of range.
pub load-redis_addrs : (e : Environment) → IsAddressList (load e).redis_addrs
unfolding load
load-redis_addrs e = rw (env_slice-split e (codes "REDIS_ADDRS") (codes "localhost:6379" ∷ [])) (
    if_any-IsAddressList (drop_empty (split [] (to_valid (e.getenv (codes "REDIS_ADDRS")))))
      (codes "localhost:6379" ∷ [])
      (drop_empty-All (split [] (to_valid (e.getenv (codes "REDIS_ADDRS")))))
      ((λ q. cc), ((λ q. cc), tt)))
