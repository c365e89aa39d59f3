-- ===== src/Scripts/Tables/Script3026/PartB.antt =====
-- The functions 150 to 288 of sample-assets-small/script-0026.js, a row for each line.
use cache_server_go.Base.{List, [], ◌∷◌}
use cache_server_go.Scripts.Fn.{Fn, ◌x+◌, ◌x-◌}

unfoldable pub fns_3026_b : List Fn
fns_3026_b =
    286050 x- 90
    ∷ 143918 x+ 68
    ∷ 619993 x+ 33
    ∷ 375733 x- 52
    ∷ 754324 x+ 55
    ∷ 761834 x+ 100
    ∷ 647792 x- 91
    ∷ 418712 x- 93
    ∷ 668041 x- 73
    ∷ 908402 x+ 66
    ∷ 742373 x- 82
    ∷ 163911 x- 2
    ∷ 595876 x- 57
    ∷ 824853 x- 86
    ∷ 850734 x+ 49
    ∷ 206070 x- 28
    ∷ 324631 x+ 61
    ∷ 788732 x+ 73
    ∷ 334060 x+ 61
    ∷ 760167 x- 1
    ∷ 27280 x- 77
    ∷ 121868 x+ 72
    ∷ 594831 x+ 51
    ∷ 812423 x- 80
    ∷ 419861 x+ 64
    ∷ 860312 x- 35
    ∷ 210583 x+ 22
    ∷ 629084 x+ 57
    ∷ 836681 x+ 80
    ∷ 216953 x+ 31
    ∷ 255781 x+ 69
    ∷ 860523 x- 91
    ∷ 518378 x+ 18
    ∷ 429905 x- 86
    ∷ 848543 x- 64
    ∷ 803180 x- 37
    ∷ 46009 x+ 13
    ∷ 734171 x+ 60
    ∷ 40275 x+ 85
    ∷ 361562 x+ 21
    ∷ 468242 x+ 81
    ∷ 227410 x+ 52
    ∷ 786983 x- 48
    ∷ 366752 x+ 23
    ∷ 514894 x+ 11
    ∷ 855091 x- 18
    ∷ 627857 x+ 37
    ∷ 772183 x+ 21
    ∷ 238169 x- 60
    ∷ 363666 x+ 12
    ∷ 390274 x+ 60
    ∷ 174855 x+ 28
    ∷ 171268 x- 3
    ∷ 550872 x+ 8
    ∷ 404650 x- 67
    ∷ 827242 x- 1
    ∷ 45902 x+ 100
    ∷ 152757 x+ 87
    ∷ 554225 x+ 55
    ∷ 812329 x- 99
    ∷ 26302 x+ 68
    ∷ 553467 x- 30
    ∷ 812100 x+ 8
    ∷ 295617 x- 87
    ∷ 823533 x- 59
    ∷ 2303 x+ 39
    ∷ 46975 x+ 51
    ∷ 656646 x- 44
    ∷ 841238 x+ 100
    ∷ 292946 x+ 29
    ∷ 807275 x- 57
    ∷ 708324 x+ 23
    ∷ 173003 x- 84
    ∷ 51350 x- 24
    ∷ 563063 x+ 67
    ∷ 146627 x- 73
    ∷ 620554 x+ 1
    ∷ 65213 x- 81
    ∷ 637950 x+ 32
    ∷ 783318 x+ 79
    ∷ 332530 x- 57
    ∷ 402632 x+ 30
    ∷ 902993 x+ 88
    ∷ 989898 x+ 70
    ∷ 405647 x+ 17
    ∷ 672635 x- 70
    ∷ 728069 x+ 5
    ∷ 482577 x- 85
    ∷ 540867 x+ 44
    ∷ 479504 x- 11
    ∷ 935215 x- 90
    ∷ 166530 x- 97
    ∷ 124341 x- 46
    ∷ 352469 x+ 18
    ∷ 801358 x+ 35
    ∷ 414658 x+ 34
    ∷ 91533 x- 52
    ∷ 699105 x- 26
    ∷ 801510 x- 31
    ∷ 280262 x- 30
    ∷ 580549 x- 90
    ∷ 235586 x- 51
    ∷ 68208 x+ 3
    ∷ 45989 x+ 51
    ∷ 306124 x- 100
    ∷ 718435 x- 18
    ∷ 506863 x- 16
    ∷ 787643 x+ 71
    ∷ 556089 x- 2
    ∷ 163997 x+ 73
    ∷ 287682 x+ 34
    ∷ 918934 x+ 10
    ∷ 898783 x- 63
    ∷ 2586 x- 32
    ∷ 924343 x- 82
    ∷ 635826 x- 85
    ∷ 118385 x+ 99
    ∷ 903452 x- 73
    ∷ 665028 x+ 98
    ∷ 473877 x- 70
    ∷ 951781 x+ 1
    ∷ 330326 x- 22
    ∷ 928132 x- 78
    ∷ 259501 x- 6
    ∷ 212331 x+ 53
    ∷ 707077 x+ 84
    ∷ 969057 x+ 50
    ∷ 4357 x+ 14
    ∷ 688447 x+ 33
    ∷ 769162 x+ 87
    ∷ 925649 x+ 49
    ∷ 349840 x- 99
    ∷ 630137 x+ 57
    ∷ 198696 x+ 28
    ∷ 520155 x- 4
    ∷ 54113 x- 73
    ∷ 627177 x- 21
    ∷ 234252 x- 76
    ∷ 267335 x+ 22
    ∷ []
