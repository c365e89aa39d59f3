-- ===== src/Scripts/Tables/Script3013/PartB.antt =====
-- The functions 150 to 173 of sample-assets-small/script-0013.js, a row for each line.
use cache_server_go.Base.{List, [], ◌∷◌}
use cache_server_go.Scripts.Fn.{Fn, ◌x+◌, ◌x-◌}

unfoldable pub fns_3013_b : List Fn
fns_3013_b =
    175872 x- 53
    ∷ 549689 x- 9
    ∷ 944701 x+ 81
    ∷ 57233 x+ 34
    ∷ 589795 x- 39
    ∷ 975987 x+ 32
    ∷ 692744 x- 5
    ∷ 250981 x+ 94
    ∷ 289253 x+ 20
    ∷ 939335 x+ 30
    ∷ 764464 x- 51
    ∷ 513517 x+ 71
    ∷ 718627 x+ 44
    ∷ 556815 x- 35
    ∷ 507727 x- 80
    ∷ 897028 x- 79
    ∷ 677949 x+ 53
    ∷ 229528 x- 34
    ∷ 82529 x- 99
    ∷ 105142 x+ 3
    ∷ 497197 x+ 27
    ∷ 936426 x- 7
    ∷ 963319 x- 25
    ∷ 390579 x- 52
    ∷ []
