-- ===== src/Scripts/Tables/Script3020.antt =====
-- The functions of sample-assets-small/script-0020.js, a row for each line.
use cache_server_go.Base.{List, [], ◌∷◌}
use cache_server_go.Scripts.Fn.{Fn, ◌x+◌, ◌x-◌}

unfoldable pub fns_3020 : List Fn
fns_3020 =
    435509 x+ 17
    ∷ 266331 x+ 4
    ∷ 893334 x- 39
    ∷ 636789 x- 75
    ∷ 39110 x- 61
    ∷ 604820 x+ 92
    ∷ 574734 x- 73
    ∷ 605489 x+ 33
    ∷ 163312 x- 9
    ∷ 249385 x- 56
    ∷ 515446 x- 27
    ∷ 873754 x+ 12
    ∷ 384897 x+ 76
    ∷ 857889 x- 30
    ∷ 841754 x+ 3
    ∷ 218372 x- 96
    ∷ 868889 x- 22
    ∷ 304743 x+ 51
    ∷ 9009 x- 92
    ∷ 666872 x+ 5
    ∷ 942857 x+ 83
    ∷ 499782 x- 94
    ∷ 158071 x+ 58
    ∷ 722388 x- 18
    ∷ 525844 x- 89
    ∷ 633660 x- 44
    ∷ 392081 x+ 60
    ∷ 819653 x- 11
    ∷ 828096 x- 100
    ∷ 157158 x+ 1
    ∷ 735443 x- 4
    ∷ 680897 x- 89
    ∷ 767561 x- 43
    ∷ 697529 x- 63
    ∷ 842251 x+ 21
    ∷ 135766 x- 46
    ∷ 878421 x+ 89
    ∷ 766862 x- 93
    ∷ 208046 x+ 57
    ∷ 90188 x+ 73
    ∷ 734747 x- 80
    ∷ 74174 x- 64
    ∷ 350478 x- 52
    ∷ 721531 x+ 69
    ∷ 324220 x- 31
    ∷ 521304 x+ 81
    ∷ 557 x- 85
    ∷ 772617 x+ 99
    ∷ 179216 x- 100
    ∷ 354629 x- 62
    ∷ 259865 x+ 63
    ∷ 42179 x- 52
    ∷ 413841 x+ 52
    ∷ 292139 x- 80
    ∷ 604273 x- 84
    ∷ 60154 x- 33
    ∷ 766584 x- 28
    ∷ 47096 x- 45
    ∷ 537312 x+ 71
    ∷ 702404 x- 58
    ∷ 718865 x+ 16
    ∷ 635247 x- 25
    ∷ 616703 x- 20
    ∷ 934822 x- 79
    ∷ 97280 x- 54
    ∷ 874264 x- 21
    ∷ 119955 x- 70
    ∷ 675072 x- 61
    ∷ 469428 x+ 6
    ∷ 14199 x+ 33
    ∷ 11296 x- 81
    ∷ 897943 x- 10
    ∷ 408991 x- 76
    ∷ 180770 x- 28
    ∷ 436409 x+ 83
    ∷ 953974 x+ 87
    ∷ 747594 x- 1
    ∷ 923579 x- 100
    ∷ 524815 x+ 82
    ∷ 826016 x- 12
    ∷ 440216 x+ 15
    ∷ 647224 x- 75
    ∷ 130600 x- 20
    ∷ 553089 x+ 21
    ∷ 938327 x+ 31
    ∷ 245529 x+ 69
    ∷ 57801 x- 1
    ∷ 722749 x- 78
    ∷ 787883 x+ 20
    ∷ 107858 x+ 99
    ∷ 912437 x- 67
    ∷ 525605 x+ 93
    ∷ 306205 x- 56
    ∷ 377752 x+ 5
    ∷ 729444 x+ 27
    ∷ 455170 x- 54
    ∷ 485681 x- 6
    ∷ 284867 x+ 46
    ∷ 415211 x- 70
    ∷ []
