-- ===== src/Scripts/Tables/Script3013/PartA.antt =====
-- The functions 0 to 149 of sample-assets-small/script-0013.js, a row for each line.
use cache_server_go.Base.{List, [], ◌∷◌}
use cache_server_go.Scripts.Fn.{Fn, ◌x+◌, ◌x-◌}

unfoldable pub fns_3013_a : List Fn
fns_3013_a =
    683937 x+ 26
    ∷ 708422 x- 87
    ∷ 126747 x+ 79
    ∷ 151455 x+ 56
    ∷ 955771 x- 60
    ∷ 543702 x+ 83
    ∷ 405622 x+ 84
    ∷ 438576 x- 80
    ∷ 877790 x- 58
    ∷ 337938 x- 17
    ∷ 860111 x+ 2
    ∷ 812552 x- 93
    ∷ 1539 x- 17
    ∷ 215402 x- 19
    ∷ 262292 x+ 4
    ∷ 353059 x- 24
    ∷ 959201 x+ 13
    ∷ 999339 x- 82
    ∷ 880802 x+ 76
    ∷ 153292 x+ 2
    ∷ 284477 x+ 44
    ∷ 702 x- 9
    ∷ 203853 x+ 33
    ∷ 759993 x+ 71
    ∷ 841111 x- 16
    ∷ 136006 x- 79
    ∷ 766653 x- 39
    ∷ 791152 x+ 95
    ∷ 237852 x+ 27
    ∷ 608989 x- 89
    ∷ 395882 x- 44
    ∷ 800865 x- 13
    ∷ 847536 x- 19
    ∷ 381312 x- 93
    ∷ 713243 x- 88
    ∷ 130247 x- 56
    ∷ 146850 x+ 11
    ∷ 32722 x- 15
    ∷ 72607 x- 37
    ∷ 951006 x- 34
    ∷ 20840 x- 16
    ∷ 316466 x- 50
    ∷ 917237 x+ 95
    ∷ 883829 x- 27
    ∷ 204604 x+ 12
    ∷ 293701 x- 39
    ∷ 5747 x+ 53
    ∷ 650969 x+ 25
    ∷ 913798 x- 100
    ∷ 589382 x- 70
    ∷ 420228 x- 57
    ∷ 37224 x+ 58
    ∷ 27752 x- 42
    ∷ 998293 x- 21
    ∷ 60215 x+ 42
    ∷ 956693 x- 77
    ∷ 977840 x- 62
    ∷ 494643 x+ 31
    ∷ 97018 x- 10
    ∷ 32079 x- 68
    ∷ 653714 x+ 34
    ∷ 166564 x+ 89
    ∷ 737273 x+ 76
    ∷ 778844 x- 92
    ∷ 841973 x- 59
    ∷ 227288 x+ 5
    ∷ 537678 x- 14
    ∷ 968913 x+ 92
    ∷ 102329 x+ 8
    ∷ 971393 x- 81
    ∷ 233434 x- 90
    ∷ 312315 x- 46
    ∷ 787615 x+ 93
    ∷ 125218 x+ 44
    ∷ 934865 x+ 85
    ∷ 929416 x+ 87
    ∷ 53340 x+ 2
    ∷ 369293 x- 50
    ∷ 343176 x+ 75
    ∷ 703074 x- 35
    ∷ 980617 x- 40
    ∷ 35810 x- 45
    ∷ 576161 x- 100
    ∷ 256117 x- 20
    ∷ 679761 x- 78
    ∷ 133210 x- 97
    ∷ 237876 x- 2
    ∷ 563396 x+ 52
    ∷ 654336 x+ 68
    ∷ 831912 x+ 40
    ∷ 512637 x- 94
    ∷ 320866 x- 31
    ∷ 284951 x- 10
    ∷ 746237 x- 65
    ∷ 487200 x+ 53
    ∷ 153538 x- 10
    ∷ 644157 x+ 46
    ∷ 457570 x- 46
    ∷ 673828 x+ 27
    ∷ 469578 x+ 59
    ∷ 913956 x- 12
    ∷ 168950 x- 9
    ∷ 691118 x+ 49
    ∷ 156097 x+ 39
    ∷ 271103 x- 76
    ∷ 673533 x+ 17
    ∷ 730855 x+ 35
    ∷ 319150 x+ 89
    ∷ 657426 x- 41
    ∷ 539873 x- 80
    ∷ 791557 x- 19
    ∷ 755119 x+ 10
    ∷ 575749 x- 74
    ∷ 710733 x+ 18
    ∷ 513267 x+ 32
    ∷ 799883 x+ 49
    ∷ 18923 x+ 96
    ∷ 647240 x- 52
    ∷ 564974 x+ 60
    ∷ 928748 x- 89
    ∷ 449120 x- 89
    ∷ 905883 x- 40
    ∷ 585332 x+ 70
    ∷ 346292 x+ 51
    ∷ 400451 x+ 67
    ∷ 820712 x+ 98
    ∷ 808785 x- 1
    ∷ 320149 x- 4
    ∷ 874798 x+ 6
    ∷ 588903 x+ 88
    ∷ 887564 x+ 87
    ∷ 58237 x+ 2
    ∷ 199399 x+ 56
    ∷ 114841 x- 15
    ∷ 568384 x- 96
    ∷ 743781 x+ 33
    ∷ 353715 x- 25
    ∷ 557585 x- 15
    ∷ 446200 x+ 90
    ∷ 524329 x+ 44
    ∷ 426431 x+ 25
    ∷ 612922 x+ 51
    ∷ 219661 x+ 9
    ∷ 910130 x- 92
    ∷ 38170 x+ 8
    ∷ 318570 x- 45
    ∷ 45785 x+ 28
    ∷ 473598 x+ 16
    ∷ 794283 x- 80
    ∷ 223161 x- 56
    ∷ []
