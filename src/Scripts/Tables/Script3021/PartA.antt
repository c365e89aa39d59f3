-- ===== src/Scripts/Tables/Script3021/PartA.antt =====
-- The functions 0 to 149 of sample-assets-small/script-0021.js, a row for each line.
use cache_server_go.Base.{List, [], ◌∷◌}
use cache_server_go.Scripts.Fn.{Fn, ◌x+◌, ◌x-◌}

unfoldable pub fns_3021_a : List Fn
fns_3021_a =
    607389 x- 96
    ∷ 2926 x+ 67
    ∷ 254380 x- 29
    ∷ 985921 x- 7
    ∷ 493597 x- 45
    ∷ 45789 x- 58
    ∷ 186335 x+ 89
    ∷ 998540 x+ 54
    ∷ 395979 x+ 18
    ∷ 750099 x- 91
    ∷ 465495 x- 56
    ∷ 547112 x+ 11
    ∷ 718988 x- 38
    ∷ 677912 x- 56
    ∷ 614772 x- 83
    ∷ 209159 x- 75
    ∷ 911887 x- 62
    ∷ 468953 x+ 56
    ∷ 216923 x- 63
    ∷ 915211 x+ 30
    ∷ 922920 x+ 91
    ∷ 918821 x- 91
    ∷ 571404 x+ 39
    ∷ 20927 x+ 96
    ∷ 413129 x+ 56
    ∷ 277806 x+ 52
    ∷ 405108 x+ 49
    ∷ 125597 x- 88
    ∷ 403571 x+ 46
    ∷ 961353 x- 58
    ∷ 891987 x+ 22
    ∷ 895665 x+ 16
    ∷ 449363 x- 92
    ∷ 24423 x+ 30
    ∷ 426779 x+ 23
    ∷ 785734 x- 38
    ∷ 630590 x- 86
    ∷ 249960 x- 10
    ∷ 511082 x+ 64
    ∷ 628636 x+ 64
    ∷ 665798 x+ 0
    ∷ 364743 x+ 76
    ∷ 9586 x- 2
    ∷ 493439 x+ 68
    ∷ 750807 x+ 69
    ∷ 476961 x- 86
    ∷ 441448 x+ 86
    ∷ 351155 x+ 66
    ∷ 336103 x+ 7
    ∷ 148990 x+ 80
    ∷ 679577 x- 35
    ∷ 467326 x- 86
    ∷ 183242 x+ 60
    ∷ 352061 x+ 30
    ∷ 889806 x+ 38
    ∷ 270615 x- 31
    ∷ 619116 x- 89
    ∷ 290147 x- 84
    ∷ 761986 x+ 95
    ∷ 998093 x+ 78
    ∷ 419400 x- 94
    ∷ 71015 x- 30
    ∷ 871627 x- 67
    ∷ 472341 x- 73
    ∷ 89907 x- 45
    ∷ 590825 x- 5
    ∷ 767138 x+ 57
    ∷ 485825 x+ 69
    ∷ 955082 x+ 99
    ∷ 685506 x- 33
    ∷ 715442 x+ 53
    ∷ 174500 x- 29
    ∷ 693474 x+ 31
    ∷ 792465 x+ 20
    ∷ 915119 x- 76
    ∷ 845755 x+ 70
    ∷ 494604 x+ 44
    ∷ 50215 x- 79
    ∷ 353412 x+ 51
    ∷ 370886 x+ 72
    ∷ 109218 x- 50
    ∷ 66358 x- 75
    ∷ 362414 x+ 86
    ∷ 960034 x- 7
    ∷ 661595 x+ 62
    ∷ 492145 x+ 61
    ∷ 775827 x+ 80
    ∷ 948394 x- 35
    ∷ 564551 x+ 99
    ∷ 13612 x+ 90
    ∷ 850773 x- 86
    ∷ 389131 x- 78
    ∷ 490722 x+ 68
    ∷ 993091 x- 99
    ∷ 889304 x- 68
    ∷ 812811 x+ 84
    ∷ 868839 x+ 25
    ∷ 716644 x- 21
    ∷ 974697 x+ 30
    ∷ 480270 x+ 36
    ∷ 752963 x+ 76
    ∷ 106653 x- 27
    ∷ 588711 x+ 55
    ∷ 994258 x+ 63
    ∷ 91645 x- 64
    ∷ 839608 x- 36
    ∷ 534372 x+ 27
    ∷ 740375 x+ 86
    ∷ 323562 x- 50
    ∷ 143068 x+ 34
    ∷ 367794 x+ 87
    ∷ 936890 x- 65
    ∷ 309963 x+ 15
    ∷ 978269 x+ 52
    ∷ 194599 x+ 13
    ∷ 990366 x+ 20
    ∷ 175276 x- 10
    ∷ 287769 x- 45
    ∷ 240982 x+ 76
    ∷ 701882 x+ 53
    ∷ 736467 x- 60
    ∷ 498788 x- 54
    ∷ 215657 x+ 100
    ∷ 71033 x- 44
    ∷ 622459 x- 22
    ∷ 910858 x+ 43
    ∷ 113700 x- 56
    ∷ 112882 x- 21
    ∷ 284690 x+ 31
    ∷ 850598 x+ 43
    ∷ 544952 x+ 21
    ∷ 333425 x+ 36
    ∷ 2546 x- 30
    ∷ 474403 x- 60
    ∷ 644264 x- 8
    ∷ 998286 x- 94
    ∷ 193039 x+ 81
    ∷ 294453 x+ 93
    ∷ 213434 x+ 5
    ∷ 240622 x- 15
    ∷ 989117 x- 6
    ∷ 510402 x- 40
    ∷ 326605 x- 66
    ∷ 321388 x+ 90
    ∷ 847234 x+ 54
    ∷ 688844 x- 55
    ∷ 707522 x+ 5
    ∷ 907596 x- 26
    ∷ 814430 x+ 75
    ∷ 524963 x- 95
    ∷ []
