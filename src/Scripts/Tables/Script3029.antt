-- ===== src/Scripts/Tables/Script3029.antt =====
-- The functions of sample-assets-small/script-0029.js, a row for each line.
use cache_server_go.Base.{List, [], ◌∷◌}
use cache_server_go.Scripts.Fn.{Fn, ◌x+◌, ◌x-◌}

unfoldable pub fns_3029 : List Fn
fns_3029 =
    507009 x+ 100
    ∷ 135493 x+ 74
    ∷ 782458 x+ 30
    ∷ 974315 x- 72
    ∷ 401506 x- 35
    ∷ 130757 x- 52
    ∷ 51117 x- 91
    ∷ 92833 x+ 24
    ∷ 176282 x- 60
    ∷ 521698 x+ 82
    ∷ 568747 x- 83
    ∷ 425003 x+ 30
    ∷ 403411 x+ 75
    ∷ 135151 x- 41
    ∷ 944930 x- 96
    ∷ 227957 x+ 62
    ∷ 12761 x- 78
    ∷ 194836 x- 41
    ∷ 815782 x- 48
    ∷ 738194 x+ 90
    ∷ 247890 x- 95
    ∷ 486092 x- 15
    ∷ 832542 x- 91
    ∷ 796282 x+ 82
    ∷ 66921 x+ 48
    ∷ 276540 x- 10
    ∷ 618376 x+ 72
    ∷ 452303 x- 49
    ∷ 437903 x+ 64
    ∷ 496844 x- 2
    ∷ 195298 x+ 20
    ∷ 431303 x+ 69
    ∷ 817652 x- 77
    ∷ 285018 x+ 81
    ∷ 460570 x- 89
    ∷ 908817 x- 48
    ∷ 438759 x- 39
    ∷ 550545 x- 53
    ∷ 232877 x+ 49
    ∷ 211555 x+ 58
    ∷ 467939 x+ 27
    ∷ 374896 x+ 84
    ∷ 519475 x- 24
    ∷ 529393 x+ 64
    ∷ 25280 x+ 98
    ∷ 649273 x- 89
    ∷ 455752 x- 48
    ∷ 24911 x- 18
    ∷ 315448 x- 50
    ∷ 507863 x+ 25
    ∷ 958101 x+ 92
    ∷ 659951 x+ 59
    ∷ 26850 x+ 80
    ∷ 403206 x+ 24
    ∷ 785277 x- 68
    ∷ 932690 x+ 14
    ∷ 681795 x- 91
    ∷ 908374 x- 31
    ∷ 130421 x+ 36
    ∷ 738031 x- 87
    ∷ 464988 x- 86
    ∷ 224590 x+ 42
    ∷ 19006 x+ 87
    ∷ 438026 x+ 44
    ∷ 971906 x- 2
    ∷ 757475 x+ 13
    ∷ 342438 x- 41
    ∷ 329535 x- 65
    ∷ 172627 x+ 13
    ∷ 483901 x- 28
    ∷ 154786 x- 66
    ∷ 58132 x- 39
    ∷ 999528 x+ 46
    ∷ 217288 x- 26
    ∷ 353538 x+ 44
    ∷ 852141 x+ 90
    ∷ 672643 x- 79
    ∷ []
