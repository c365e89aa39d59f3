-- ===== src/Scripts/Tables/Script3011/PartC.antt =====
-- The functions 300 to 344 of sample-assets-small/script-0011.js, a row for each line.
use cache_server_go.Base.{List, [], ◌∷◌}
use cache_server_go.Scripts.Fn.{Fn, ◌x+◌, ◌x-◌}

unfoldable pub fns_3011_c : List Fn
fns_3011_c =
    362216 x+ 61
    ∷ 197297 x+ 45
    ∷ 891921 x- 70
    ∷ 620729 x+ 66
    ∷ 635749 x- 75
    ∷ 16866 x- 74
    ∷ 926727 x- 70
    ∷ 265203 x+ 22
    ∷ 944804 x+ 72
    ∷ 508235 x- 42
    ∷ 692963 x+ 53
    ∷ 935396 x+ 56
    ∷ 964360 x+ 23
    ∷ 179795 x- 44
    ∷ 187567 x- 96
    ∷ 411967 x+ 11
    ∷ 497759 x+ 74
    ∷ 944974 x- 96
    ∷ 915412 x+ 20
    ∷ 232928 x- 76
    ∷ 539434 x- 52
    ∷ 62650 x+ 94
    ∷ 203611 x+ 63
    ∷ 888524 x+ 25
    ∷ 396483 x+ 14
    ∷ 821952 x+ 59
    ∷ 732091 x- 37
    ∷ 937454 x+ 59
    ∷ 879098 x+ 45
    ∷ 249708 x+ 83
    ∷ 314879 x+ 66
    ∷ 254737 x- 43
    ∷ 55580 x+ 19
    ∷ 964373 x+ 66
    ∷ 585545 x- 60
    ∷ 707257 x- 63
    ∷ 653339 x+ 64
    ∷ 140242 x- 43
    ∷ 992455 x- 5
    ∷ 280647 x- 48
    ∷ 796192 x- 22
    ∷ 976260 x+ 81
    ∷ 729291 x+ 77
    ∷ 521786 x+ 26
    ∷ 276890 x- 51
    ∷ []
