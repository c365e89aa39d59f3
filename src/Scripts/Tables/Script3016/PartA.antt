-- ===== src/Scripts/Tables/Script3016/PartA.antt =====
-- The functions 0 to 149 of sample-assets-small/script-0016.js, a row for each line.
use cache_server_go.Base.{List, [], ◌∷◌}
use cache_server_go.Scripts.Fn.{Fn, ◌x+◌, ◌x-◌}

unfoldable pub fns_3016_a : List Fn
fns_3016_a =
    693206 x- 24
    ∷ 870618 x+ 7
    ∷ 81413 x- 38
    ∷ 608393 x- 21
    ∷ 451533 x+ 44
    ∷ 335874 x+ 54
    ∷ 650800 x- 68
    ∷ 525358 x- 65
    ∷ 171557 x- 85
    ∷ 250826 x- 44
    ∷ 86200 x- 44
    ∷ 561125 x- 87
    ∷ 131807 x- 59
    ∷ 749709 x- 73
    ∷ 266683 x- 82
    ∷ 384920 x- 33
    ∷ 700022 x- 87
    ∷ 329258 x- 41
    ∷ 592849 x+ 21
    ∷ 328579 x+ 48
    ∷ 681364 x+ 89
    ∷ 1382 x- 27
    ∷ 718584 x+ 90
    ∷ 72901 x- 55
    ∷ 968870 x- 86
    ∷ 102453 x+ 98
    ∷ 635868 x- 80
    ∷ 475450 x+ 20
    ∷ 756305 x+ 78
    ∷ 124626 x- 60
    ∷ 570203 x+ 56
    ∷ 937760 x+ 11
    ∷ 543735 x- 62
    ∷ 396965 x+ 0
    ∷ 943971 x+ 83
    ∷ 387578 x- 50
    ∷ 329230 x- 82
    ∷ 175749 x- 85
    ∷ 124589 x- 45
    ∷ 567068 x- 63
    ∷ 829309 x- 2
    ∷ 607457 x- 62
    ∷ 495788 x- 1
    ∷ 84484 x- 98
    ∷ 243608 x- 3
    ∷ 539693 x- 89
    ∷ 343838 x+ 25
    ∷ 762672 x- 73
    ∷ 918971 x+ 32
    ∷ 104506 x+ 55
    ∷ 620491 x- 16
    ∷ 818492 x- 18
    ∷ 59058 x- 83
    ∷ 91394 x+ 36
    ∷ 856784 x- 85
    ∷ 95764 x- 22
    ∷ 183325 x- 68
    ∷ 470019 x+ 78
    ∷ 493342 x- 43
    ∷ 249058 x+ 94
    ∷ 674262 x+ 34
    ∷ 419357 x+ 45
    ∷ 433284 x+ 17
    ∷ 345338 x+ 47
    ∷ 153742 x- 90
    ∷ 209217 x+ 3
    ∷ 994015 x- 92
    ∷ 752774 x- 59
    ∷ 361808 x+ 100
    ∷ 54979 x- 71
    ∷ 753841 x+ 31
    ∷ 776782 x- 94
    ∷ 242849 x- 6
    ∷ 758000 x- 9
    ∷ 43557 x+ 69
    ∷ 150 x- 94
    ∷ 809216 x+ 2
    ∷ 332810 x- 46
    ∷ 313966 x+ 55
    ∷ 782037 x+ 82
    ∷ 411937 x+ 85
    ∷ 169021 x- 100
    ∷ 408735 x- 2
    ∷ 173327 x- 77
    ∷ 659048 x+ 93
    ∷ 798623 x- 24
    ∷ 976843 x- 62
    ∷ 164777 x- 64
    ∷ 932307 x+ 29
    ∷ 53995 x- 36
    ∷ 633600 x+ 0
    ∷ 245595 x+ 58
    ∷ 394280 x- 76
    ∷ 998003 x- 96
    ∷ 234274 x- 5
    ∷ 536340 x- 96
    ∷ 110409 x+ 85
    ∷ 675841 x+ 84
    ∷ 384838 x+ 48
    ∷ 923546 x- 62
    ∷ 920957 x- 50
    ∷ 191831 x+ 24
    ∷ 589584 x+ 54
    ∷ 4758 x+ 42
    ∷ 699974 x+ 26
    ∷ 209722 x- 14
    ∷ 305576 x- 39
    ∷ 929774 x+ 8
    ∷ 722503 x- 17
    ∷ 860275 x- 67
    ∷ 914061 x- 91
    ∷ 211621 x+ 35
    ∷ 180661 x- 28
    ∷ 50578 x+ 63
    ∷ 402465 x- 9
    ∷ 446038 x+ 79
    ∷ 588892 x- 64
    ∷ 793035 x+ 88
    ∷ 633691 x- 54
    ∷ 548500 x- 92
    ∷ 187896 x- 65
    ∷ 879243 x+ 39
    ∷ 719927 x+ 99
    ∷ 415135 x- 5
    ∷ 393988 x+ 83
    ∷ 214484 x+ 74
    ∷ 651578 x+ 94
    ∷ 602094 x+ 91
    ∷ 14292 x+ 5
    ∷ 98862 x- 99
    ∷ 396205 x+ 27
    ∷ 168209 x+ 0
    ∷ 359461 x+ 52
    ∷ 96958 x+ 17
    ∷ 190255 x+ 86
    ∷ 93936 x+ 42
    ∷ 519249 x- 71
    ∷ 487482 x- 53
    ∷ 911905 x- 27
    ∷ 519006 x- 57
    ∷ 425420 x- 15
    ∷ 525953 x- 85
    ∷ 659159 x+ 58
    ∷ 113867 x- 14
    ∷ 383218 x- 46
    ∷ 153095 x- 85
    ∷ 522161 x+ 20
    ∷ 234654 x- 68
    ∷ 53217 x- 38
    ∷ 934820 x- 51
    ∷ []
