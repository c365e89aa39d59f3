-- ===== src/Scripts/Tables/Script3028/PartB.antt =====
-- The functions 150 to 299 of sample-assets-small/script-0028.js, a row for each line.
use cache_server_go.Base.{List, [], ◌∷◌}
use cache_server_go.Scripts.Fn.{Fn, ◌x+◌, ◌x-◌}

unfoldable pub fns_3028_b : List Fn
fns_3028_b =
    218978 x+ 75
    ∷ 704126 x+ 66
    ∷ 537139 x+ 20
    ∷ 450534 x- 67
    ∷ 978160 x- 57
    ∷ 235794 x+ 14
    ∷ 220095 x+ 99
    ∷ 93265 x- 2
    ∷ 957523 x+ 10
    ∷ 791818 x- 28
    ∷ 621591 x+ 65
    ∷ 846859 x- 95
    ∷ 381795 x- 37
    ∷ 907003 x- 25
    ∷ 547205 x- 94
    ∷ 385566 x- 52
    ∷ 168567 x- 16
    ∷ 587215 x+ 0
    ∷ 857576 x+ 74
    ∷ 378819 x- 61
    ∷ 172842 x+ 80
    ∷ 980695 x+ 78
    ∷ 226553 x- 96
    ∷ 36199 x- 53
    ∷ 522397 x+ 27
    ∷ 197267 x- 100
    ∷ 327052 x- 15
    ∷ 504095 x- 89
    ∷ 567990 x+ 60
    ∷ 683582 x+ 51
    ∷ 685762 x- 17
    ∷ 367223 x- 65
    ∷ 585837 x+ 41
    ∷ 496005 x+ 11
    ∷ 422805 x+ 57
    ∷ 258248 x+ 36
    ∷ 431476 x+ 78
    ∷ 565674 x- 85
    ∷ 818828 x+ 18
    ∷ 501954 x+ 0
    ∷ 767265 x+ 38
    ∷ 77380 x- 83
    ∷ 332819 x- 72
    ∷ 116093 x- 87
    ∷ 58977 x+ 68
    ∷ 9953 x+ 75
    ∷ 702159 x+ 13
    ∷ 883841 x+ 66
    ∷ 169148 x- 6
    ∷ 202470 x+ 16
    ∷ 685549 x- 80
    ∷ 628872 x- 21
    ∷ 660940 x- 90
    ∷ 547234 x+ 33
    ∷ 690825 x- 68
    ∷ 657644 x- 29
    ∷ 543839 x- 98
    ∷ 482381 x+ 95
    ∷ 147727 x- 77
    ∷ 789407 x+ 11
    ∷ 583865 x+ 98
    ∷ 817249 x- 22
    ∷ 370982 x+ 37
    ∷ 316762 x+ 60
    ∷ 208849 x+ 67
    ∷ 399126 x+ 71
    ∷ 292372 x+ 38
    ∷ 193876 x+ 41
    ∷ 600131 x+ 13
    ∷ 885056 x- 47
    ∷ 991387 x+ 59
    ∷ 529696 x- 66
    ∷ 669301 x- 82
    ∷ 209917 x+ 36
    ∷ 898989 x- 8
    ∷ 302692 x+ 24
    ∷ 242110 x+ 89
    ∷ 40201 x- 46
    ∷ 245963 x- 62
    ∷ 699496 x+ 57
    ∷ 420710 x- 95
    ∷ 132707 x+ 2
    ∷ 114493 x- 36
    ∷ 683933 x- 49
    ∷ 111608 x- 9
    ∷ 578936 x+ 34
    ∷ 940479 x+ 21
    ∷ 556965 x+ 36
    ∷ 582650 x- 83
    ∷ 437948 x- 30
    ∷ 583538 x- 27
    ∷ 869933 x+ 15
    ∷ 95610 x- 2
    ∷ 740815 x- 6
    ∷ 441590 x+ 20
    ∷ 332403 x- 65
    ∷ 323534 x+ 48
    ∷ 47369 x- 83
    ∷ 559586 x+ 8
    ∷ 929919 x- 36
    ∷ 985088 x+ 23
    ∷ 512909 x+ 74
    ∷ 225173 x- 73
    ∷ 894057 x- 7
    ∷ 775571 x+ 72
    ∷ 921784 x- 21
    ∷ 496007 x- 52
    ∷ 137474 x- 25
    ∷ 260473 x+ 100
    ∷ 910587 x- 91
    ∷ 456004 x- 67
    ∷ 190079 x- 73
    ∷ 2152 x- 73
    ∷ 623280 x+ 53
    ∷ 289767 x- 7
    ∷ 241980 x+ 72
    ∷ 873672 x+ 3
    ∷ 967744 x- 95
    ∷ 416562 x- 53
    ∷ 870604 x+ 62
    ∷ 375348 x- 56
    ∷ 872082 x+ 52
    ∷ 623595 x+ 41
    ∷ 413474 x- 86
    ∷ 599329 x- 88
    ∷ 206295 x+ 83
    ∷ 980901 x+ 48
    ∷ 924413 x- 67
    ∷ 426938 x- 60
    ∷ 62285 x+ 10
    ∷ 479855 x- 31
    ∷ 606091 x+ 23
    ∷ 409800 x- 24
    ∷ 183532 x+ 30
    ∷ 172362 x- 85
    ∷ 616594 x- 14
    ∷ 373277 x- 79
    ∷ 959181 x- 63
    ∷ 76987 x+ 23
    ∷ 626716 x- 91
    ∷ 357800 x+ 67
    ∷ 54376 x+ 24
    ∷ 718563 x- 77
    ∷ 840379 x+ 56
    ∷ 269745 x- 54
    ∷ 528154 x+ 79
    ∷ 558722 x+ 96
    ∷ 73486 x- 38
    ∷ 467180 x+ 64
    ∷ 935677 x- 76
    ∷ []
