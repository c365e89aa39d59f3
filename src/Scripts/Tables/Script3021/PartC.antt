-- ===== src/Scripts/Tables/Script3021/PartC.antt =====
-- The functions 300 to 386 of sample-assets-small/script-0021.js, a row for each line.
use cache_server_go.Base.{List, [], ◌∷◌}
use cache_server_go.Scripts.Fn.{Fn, ◌x+◌, ◌x-◌}

unfoldable pub fns_3021_c : List Fn
fns_3021_c =
    161324 x+ 100
    ∷ 802786 x+ 2
    ∷ 373692 x- 79
    ∷ 320310 x- 29
    ∷ 23201 x+ 68
    ∷ 754107 x+ 15
    ∷ 992123 x+ 64
    ∷ 979452 x- 87
    ∷ 275846 x+ 93
    ∷ 836828 x- 52
    ∷ 478347 x+ 90
    ∷ 156419 x- 8
    ∷ 793458 x- 19
    ∷ 60349 x- 2
    ∷ 857652 x+ 81
    ∷ 23672 x+ 86
    ∷ 771598 x+ 3
    ∷ 120072 x+ 65
    ∷ 91876 x+ 20
    ∷ 203831 x+ 62
    ∷ 837259 x+ 5
    ∷ 429582 x- 96
    ∷ 887014 x+ 26
    ∷ 690699 x- 77
    ∷ 429515 x+ 43
    ∷ 707261 x+ 81
    ∷ 241730 x+ 33
    ∷ 342166 x+ 33
    ∷ 283600 x+ 1
    ∷ 331804 x+ 45
    ∷ 912642 x- 97
    ∷ 296145 x- 81
    ∷ 203952 x+ 16
    ∷ 198415 x+ 59
    ∷ 167493 x- 10
    ∷ 999466 x- 1
    ∷ 184338 x+ 63
    ∷ 459942 x- 23
    ∷ 958312 x- 52
    ∷ 751711 x+ 64
    ∷ 622925 x+ 44
    ∷ 632864 x+ 27
    ∷ 899756 x- 64
    ∷ 257465 x+ 70
    ∷ 375339 x- 66
    ∷ 70439 x- 75
    ∷ 127304 x+ 91
    ∷ 720777 x+ 17
    ∷ 925022 x+ 9
    ∷ 24226 x- 4
    ∷ 195276 x- 52
    ∷ 30562 x- 22
    ∷ 380436 x+ 44
    ∷ 454153 x+ 98
    ∷ 358184 x+ 33
    ∷ 761565 x- 94
    ∷ 121470 x- 82
    ∷ 864382 x- 15
    ∷ 785307 x+ 73
    ∷ 460446 x- 73
    ∷ 313299 x- 19
    ∷ 374441 x- 18
    ∷ 589359 x+ 81
    ∷ 578669 x+ 81
    ∷ 261568 x- 48
    ∷ 926362 x- 65
    ∷ 835166 x+ 62
    ∷ 858420 x+ 8
    ∷ 55096 x- 96
    ∷ 336687 x- 57
    ∷ 865915 x- 86
    ∷ 69538 x+ 3
    ∷ 830906 x- 54
    ∷ 969961 x+ 7
    ∷ 632267 x- 85
    ∷ 445806 x+ 53
    ∷ 781438 x+ 24
    ∷ 998721 x- 45
    ∷ 860476 x+ 49
    ∷ 765296 x+ 69
    ∷ 785079 x- 23
    ∷ 417870 x+ 31
    ∷ 171305 x+ 2
    ∷ 141173 x- 19
    ∷ 920401 x+ 62
    ∷ 163073 x- 50
    ∷ 82973 x+ 67
    ∷ []
