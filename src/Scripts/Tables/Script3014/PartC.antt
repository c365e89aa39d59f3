-- ===== src/Scripts/Tables/Script3014/PartC.antt =====
-- The functions 300 to 449 of sample-assets-small/script-0014.js, a row for each line.
use cache_server_go.Base.{List, [], ◌∷◌}
use cache_server_go.Scripts.Fn.{Fn, ◌x+◌, ◌x-◌}

unfoldable pub fns_3014_c : List Fn
fns_3014_c =
    200468 x- 55
    ∷ 748503 x+ 14
    ∷ 46317 x- 93
    ∷ 79826 x+ 61
    ∷ 214799 x+ 39
    ∷ 478947 x- 58
    ∷ 204576 x+ 83
    ∷ 695397 x- 35
    ∷ 801284 x+ 63
    ∷ 751051 x+ 4
    ∷ 566931 x+ 22
    ∷ 888859 x+ 58
    ∷ 874225 x- 66
    ∷ 460104 x- 60
    ∷ 439018 x+ 99
    ∷ 490752 x- 37
    ∷ 996909 x+ 88
    ∷ 913712 x- 36
    ∷ 400943 x+ 65
    ∷ 992370 x+ 9
    ∷ 755806 x+ 43
    ∷ 623271 x- 24
    ∷ 255565 x- 61
    ∷ 938323 x- 71
    ∷ 824321 x+ 51
    ∷ 705959 x+ 44
    ∷ 365975 x+ 56
    ∷ 486885 x+ 65
    ∷ 462837 x- 63
    ∷ 111901 x+ 89
    ∷ 152231 x- 25
    ∷ 878056 x- 25
    ∷ 451365 x+ 54
    ∷ 886619 x+ 90
    ∷ 851308 x+ 59
    ∷ 570099 x- 36
    ∷ 266053 x+ 44
    ∷ 85503 x- 96
    ∷ 590228 x- 46
    ∷ 947794 x- 56
    ∷ 971384 x+ 24
    ∷ 860474 x- 87
    ∷ 760922 x- 8
    ∷ 779640 x+ 6
    ∷ 798987 x+ 58
    ∷ 98846 x- 90
    ∷ 618540 x+ 53
    ∷ 396671 x- 57
    ∷ 127561 x+ 10
    ∷ 207192 x+ 74
    ∷ 668036 x+ 66
    ∷ 322847 x+ 8
    ∷ 335285 x+ 68
    ∷ 140929 x+ 15
    ∷ 52459 x+ 32
    ∷ 451477 x- 22
    ∷ 465501 x- 9
    ∷ 982545 x+ 85
    ∷ 46013 x- 44
    ∷ 577520 x- 54
    ∷ 384588 x+ 15
    ∷ 452218 x- 35
    ∷ 699616 x+ 35
    ∷ 515401 x+ 17
    ∷ 966185 x+ 46
    ∷ 439000 x- 74
    ∷ 760882 x+ 35
    ∷ 460422 x+ 0
    ∷ 767207 x- 15
    ∷ 458860 x- 39
    ∷ 461364 x+ 90
    ∷ 132300 x- 44
    ∷ 235389 x+ 73
    ∷ 887999 x+ 52
    ∷ 301753 x- 44
    ∷ 61987 x+ 49
    ∷ 65148 x+ 17
    ∷ 531195 x+ 57
    ∷ 547471 x+ 51
    ∷ 904951 x+ 76
    ∷ 115654 x- 77
    ∷ 924073 x- 2
    ∷ 878493 x- 34
    ∷ 509587 x- 40
    ∷ 495747 x+ 84
    ∷ 442218 x+ 78
    ∷ 982207 x- 97
    ∷ 427483 x+ 3
    ∷ 476121 x- 35
    ∷ 773143 x+ 41
    ∷ 402120 x+ 13
    ∷ 438333 x+ 6
    ∷ 54304 x- 8
    ∷ 558833 x+ 64
    ∷ 179547 x+ 72
    ∷ 442866 x- 12
    ∷ 646309 x- 73
    ∷ 589353 x+ 42
    ∷ 554060 x- 23
    ∷ 13470 x+ 62
    ∷ 631982 x+ 70
    ∷ 891010 x+ 76
    ∷ 615782 x+ 74
    ∷ 800442 x+ 27
    ∷ 335307 x+ 19
    ∷ 467062 x+ 50
    ∷ 13289 x+ 67
    ∷ 538497 x+ 44
    ∷ 769177 x- 52
    ∷ 676717 x+ 86
    ∷ 196126 x- 95
    ∷ 161552 x- 17
    ∷ 74560 x- 94
    ∷ 183569 x- 34
    ∷ 825049 x- 50
    ∷ 874407 x- 27
    ∷ 853777 x+ 36
    ∷ 532096 x- 10
    ∷ 573008 x- 12
    ∷ 722468 x- 31
    ∷ 2477 x+ 51
    ∷ 507300 x+ 89
    ∷ 369672 x+ 52
    ∷ 225678 x- 90
    ∷ 405694 x+ 6
    ∷ 328497 x+ 63
    ∷ 247240 x- 73
    ∷ 173008 x- 88
    ∷ 518131 x+ 66
    ∷ 952241 x+ 67
    ∷ 771245 x- 71
    ∷ 334882 x+ 100
    ∷ 599266 x+ 76
    ∷ 677515 x- 33
    ∷ 672358 x- 42
    ∷ 116745 x- 47
    ∷ 150445 x+ 86
    ∷ 383237 x+ 16
    ∷ 259049 x+ 4
    ∷ 200023 x- 34
    ∷ 630738 x- 51
    ∷ 778220 x- 34
    ∷ 733702 x+ 35
    ∷ 211302 x- 84
    ∷ 240174 x+ 17
    ∷ 168994 x- 84
    ∷ 223247 x- 57
    ∷ 51553 x+ 66
    ∷ 615445 x+ 2
    ∷ 292768 x+ 19
    ∷ []
