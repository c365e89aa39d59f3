-- ===== src/Tests/Listing.antt =====
-- The list of assets: a run with a key that is not plain, and an instance.
use cache_server_go.Base.{◌≡◌, refl, true, some, List, [], ◌∷◌, Bytes, codes, length, All}
use cache_server_go.Scripts.Decimal.{digits, digits_from}
use cache_server_go.Assets.Reports.{list_assets, listed, listed_after}
use cache_server_go.Assets.Listing.{IsPlain, read_listing, text_of, read_listing-list_assets}

abbrev keys : List Bytes
keys = codes "a.png" ∷ codes "b,2.css" ∷ []

text :
    text_of (list_assets true (some keys))
    ≡ codes "{\"count\":2,\"assets\":[\"a.png\",\"b,2.css\"]}"
unfolding list_assets listed listed_after digits digits_from
text = refl

-- One key with quotes in it reads as two, next to a count of one.
quoted :
    read_listing (text_of (list_assets true (some (codes "a\",\"b" ∷ []))))
    ≡ some (codes "1", codes "a" ∷ codes "b" ∷ [])
unfolding list_assets listed listed_after digits digits_from
quoted = refl

keys-IsPlain : All IsPlain keys
keys-IsPlain = (
  (refl, (refl, (refl, (refl, (refl, tt))))),
  ((refl, (refl, (refl, (refl, (refl, (refl, (refl, tt))))))), tt),
)

read_listing-list_assets_example :
    read_listing (text_of (list_assets true (some keys))) ≡ some (digits (length keys), keys)
read_listing-list_assets_example = read_listing-list_assets keys keys-IsPlain
