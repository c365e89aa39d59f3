-- ===== src/Scripts/Tables/Script3023/PartB.antt =====
-- The functions 150 to 230 of sample-assets-small/script-0023.js, a row for each line.
use cache_server_go.Base.{List, [], ◌∷◌}
use cache_server_go.Scripts.Fn.{Fn, ◌x+◌, ◌x-◌}

unfoldable pub fns_3023_b : List Fn
fns_3023_b =
    327100 x- 43
    ∷ 140055 x+ 31
    ∷ 101287 x- 70
    ∷ 222056 x- 93
    ∷ 452155 x+ 72
    ∷ 155694 x+ 93
    ∷ 659330 x- 99
    ∷ 812304 x- 69
    ∷ 822900 x- 96
    ∷ 687794 x+ 88
    ∷ 184471 x+ 27
    ∷ 93349 x- 15
    ∷ 802080 x+ 1
    ∷ 611345 x- 45
    ∷ 760143 x- 87
    ∷ 849749 x- 86
    ∷ 483973 x+ 10
    ∷ 79334 x- 79
    ∷ 16440 x+ 89
    ∷ 424368 x+ 89
    ∷ 192364 x- 21
    ∷ 867131 x+ 45
    ∷ 866033 x- 52
    ∷ 485635 x- 30
    ∷ 588158 x- 99
    ∷ 97831 x- 93
    ∷ 946857 x- 37
    ∷ 729574 x+ 18
    ∷ 72919 x+ 63
    ∷ 401404 x+ 67
    ∷ 120753 x- 37
    ∷ 899132 x+ 13
    ∷ 851211 x+ 12
    ∷ 363356 x- 29
    ∷ 261729 x- 24
    ∷ 322702 x- 73
    ∷ 736720 x+ 18
    ∷ 421456 x+ 26
    ∷ 607954 x- 78
    ∷ 811267 x- 98
    ∷ 22729 x+ 35
    ∷ 556563 x- 92
    ∷ 602960 x+ 70
    ∷ 59070 x+ 74
    ∷ 938968 x+ 35
    ∷ 964031 x- 9
    ∷ 348646 x- 14
    ∷ 8719 x+ 27
    ∷ 573486 x- 10
    ∷ 930644 x- 9
    ∷ 846904 x+ 4
    ∷ 839352 x+ 38
    ∷ 491101 x+ 54
    ∷ 393194 x+ 48
    ∷ 580355 x+ 27
    ∷ 644237 x+ 57
    ∷ 143296 x- 72
    ∷ 341756 x+ 0
    ∷ 943669 x+ 94
    ∷ 807611 x+ 19
    ∷ 737231 x- 59
    ∷ 940239 x+ 77
    ∷ 358860 x+ 90
    ∷ 332178 x+ 70
    ∷ 602901 x- 63
    ∷ 581020 x- 11
    ∷ 733865 x+ 94
    ∷ 684237 x+ 52
    ∷ 240448 x+ 45
    ∷ 331115 x- 65
    ∷ 677929 x- 100
    ∷ 41263 x- 4
    ∷ 751025 x- 24
    ∷ 597550 x+ 52
    ∷ 454583 x+ 1
    ∷ 461369 x+ 98
    ∷ 989317 x- 77
    ∷ 88985 x- 44
    ∷ 126360 x+ 17
    ∷ 945842 x- 74
    ∷ 389580 x+ 66
    ∷ []
