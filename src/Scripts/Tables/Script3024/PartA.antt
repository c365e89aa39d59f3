-- ===== src/Scripts/Tables/Script3024/PartA.antt =====
-- The functions 0 to 149 of sample-assets-small/script-0024.js, a row for each line.
use cache_server_go.Base.{List, [], ◌∷◌}
use cache_server_go.Scripts.Fn.{Fn, ◌x+◌, ◌x-◌}

unfoldable pub fns_3024_a : List Fn
fns_3024_a =
    143709 x- 73
    ∷ 304972 x- 47
    ∷ 529379 x+ 62
    ∷ 470086 x- 87
    ∷ 557092 x+ 95
    ∷ 720313 x+ 53
    ∷ 867663 x+ 9
    ∷ 802827 x- 77
    ∷ 408858 x- 60
    ∷ 11081 x+ 93
    ∷ 850104 x- 75
    ∷ 96015 x- 32
    ∷ 916846 x+ 24
    ∷ 545865 x- 46
    ∷ 842916 x+ 48
    ∷ 358326 x- 50
    ∷ 612283 x- 25
    ∷ 345442 x+ 76
    ∷ 177327 x- 48
    ∷ 143253 x- 63
    ∷ 502842 x- 12
    ∷ 374293 x+ 16
    ∷ 811049 x+ 18
    ∷ 747903 x+ 54
    ∷ 699923 x- 92
    ∷ 950831 x- 9
    ∷ 24789 x+ 47
    ∷ 349375 x+ 90
    ∷ 487849 x- 80
    ∷ 535403 x- 71
    ∷ 191090 x- 17
    ∷ 694321 x- 76
    ∷ 761514 x+ 62
    ∷ 332584 x- 47
    ∷ 326866 x- 57
    ∷ 464372 x- 49
    ∷ 977238 x+ 57
    ∷ 715676 x+ 90
    ∷ 65617 x- 49
    ∷ 952379 x+ 40
    ∷ 308368 x+ 27
    ∷ 475258 x- 50
    ∷ 759 x- 13
    ∷ 77265 x- 91
    ∷ 615467 x- 68
    ∷ 69807 x+ 0
    ∷ 373022 x+ 91
    ∷ 907458 x+ 45
    ∷ 514419 x+ 77
    ∷ 998363 x+ 93
    ∷ 481478 x- 77
    ∷ 77204 x- 94
    ∷ 817947 x+ 54
    ∷ 759442 x- 76
    ∷ 703304 x+ 67
    ∷ 961583 x- 68
    ∷ 898820 x+ 38
    ∷ 900286 x+ 37
    ∷ 204185 x- 9
    ∷ 953827 x+ 67
    ∷ 121850 x- 4
    ∷ 583488 x- 24
    ∷ 425654 x- 100
    ∷ 5763 x- 1
    ∷ 201871 x- 89
    ∷ 730611 x- 92
    ∷ 353092 x+ 31
    ∷ 530302 x- 7
    ∷ 277262 x- 33
    ∷ 881651 x+ 36
    ∷ 126948 x+ 18
    ∷ 535619 x- 8
    ∷ 99236 x+ 53
    ∷ 135582 x+ 54
    ∷ 217451 x- 73
    ∷ 68735 x- 7
    ∷ 853019 x+ 59
    ∷ 729549 x+ 40
    ∷ 83041 x+ 7
    ∷ 840035 x+ 31
    ∷ 136377 x- 68
    ∷ 691334 x- 84
    ∷ 607768 x- 54
    ∷ 198945 x+ 51
    ∷ 545314 x+ 14
    ∷ 722166 x+ 29
    ∷ 207286 x- 41
    ∷ 896452 x- 48
    ∷ 199057 x+ 20
    ∷ 241613 x- 13
    ∷ 650165 x+ 96
    ∷ 702737 x- 92
    ∷ 397125 x- 54
    ∷ 13779 x- 26
    ∷ 901338 x+ 40
    ∷ 258888 x+ 8
    ∷ 568590 x+ 60
    ∷ 280510 x+ 68
    ∷ 276295 x+ 84
    ∷ 226377 x+ 97
    ∷ 38349 x+ 2
    ∷ 919404 x- 73
    ∷ 57868 x+ 52
    ∷ 353585 x- 100
    ∷ 259560 x+ 5
    ∷ 991547 x+ 11
    ∷ 765754 x+ 100
    ∷ 858376 x- 77
    ∷ 13679 x+ 66
    ∷ 128863 x- 89
    ∷ 14525 x- 92
    ∷ 76391 x+ 86
    ∷ 892527 x+ 90
    ∷ 451671 x+ 77
    ∷ 360533 x+ 54
    ∷ 445113 x+ 50
    ∷ 67682 x+ 36
    ∷ 771987 x+ 10
    ∷ 30842 x+ 66
    ∷ 330969 x+ 87
    ∷ 470146 x+ 33
    ∷ 104233 x+ 10
    ∷ 710416 x- 76
    ∷ 504387 x- 42
    ∷ 154415 x- 33
    ∷ 28800 x+ 35
    ∷ 931082 x+ 59
    ∷ 347915 x- 71
    ∷ 850809 x- 31
    ∷ 533780 x+ 17
    ∷ 728967 x- 56
    ∷ 477313 x- 71
    ∷ 516609 x- 39
    ∷ 605648 x+ 19
    ∷ 303553 x- 68
    ∷ 382038 x+ 53
    ∷ 928501 x+ 52
    ∷ 316572 x- 29
    ∷ 521200 x- 68
    ∷ 108523 x+ 7
    ∷ 105449 x- 65
    ∷ 835670 x- 91
    ∷ 690618 x- 70
    ∷ 789143 x+ 75
    ∷ 34537 x+ 100
    ∷ 821270 x- 81
    ∷ 130056 x+ 42
    ∷ 928007 x- 24
    ∷ 707002 x- 4
    ∷ 509975 x- 11
    ∷ []
