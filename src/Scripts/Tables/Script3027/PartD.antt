-- ===== src/Scripts/Tables/Script3027/PartD.antt =====
-- The functions 450 to 491 of sample-assets-small/script-0027.js, a row for each line.
use cache_server_go.Base.{List, [], ◌∷◌}
use cache_server_go.Scripts.Fn.{Fn, ◌x+◌, ◌x-◌}

unfoldable pub fns_3027_d : List Fn
fns_3027_d =
    46063 x- 10
    ∷ 352294 x+ 38
    ∷ 18036 x+ 39
    ∷ 79531 x+ 28
    ∷ 156084 x+ 5
    ∷ 47830 x- 36
    ∷ 735181 x+ 88
    ∷ 569919 x+ 47
    ∷ 942491 x- 55
    ∷ 946393 x+ 1
    ∷ 348635 x- 32
    ∷ 493996 x- 81
    ∷ 55323 x- 22
    ∷ 81194 x+ 86
    ∷ 310827 x+ 91
    ∷ 625414 x- 77
    ∷ 842061 x+ 80
    ∷ 728229 x+ 36
    ∷ 955065 x+ 1
    ∷ 830868 x- 34
    ∷ 971045 x- 22
    ∷ 305902 x- 77
    ∷ 948925 x+ 36
    ∷ 419749 x+ 72
    ∷ 740965 x+ 22
    ∷ 88980 x+ 37
    ∷ 731460 x+ 60
    ∷ 824303 x+ 56
    ∷ 186774 x+ 24
    ∷ 943024 x- 59
    ∷ 987254 x- 53
    ∷ 179498 x+ 48
    ∷ 824062 x- 88
    ∷ 389065 x+ 90
    ∷ 367955 x- 49
    ∷ 695400 x- 96
    ∷ 562494 x- 52
    ∷ 980725 x- 41
    ∷ 249922 x+ 52
    ∷ 995545 x+ 91
    ∷ 505653 x+ 70
    ∷ 486293 x+ 59
    ∷ []
