-- ===== src/Scripts/Tables/Script3002/PartA.antt =====
-- The functions 0 to 149 of sample-assets-small/script-0002.js, a row for each line.
use cache_server_go.Base.{List, [], ◌∷◌}
use cache_server_go.Scripts.Fn.{Fn, ◌x+◌, ◌x-◌}

unfoldable pub fns_3002_a : List Fn
fns_3002_a =
    196433 x+ 62
    ∷ 841689 x- 100
    ∷ 62304 x- 2
    ∷ 737047 x+ 16
    ∷ 720049 x+ 95
    ∷ 3048 x- 17
    ∷ 10802 x- 13
    ∷ 430716 x+ 97
    ∷ 538926 x+ 12
    ∷ 614142 x- 51
    ∷ 111330 x+ 20
    ∷ 439122 x+ 10
    ∷ 774414 x- 20
    ∷ 518418 x- 89
    ∷ 67820 x- 42
    ∷ 816292 x- 39
    ∷ 857 x- 88
    ∷ 924256 x- 80
    ∷ 57228 x- 85
    ∷ 578222 x- 58
    ∷ 90880 x- 74
    ∷ 739965 x+ 95
    ∷ 524250 x- 86
    ∷ 366890 x- 56
    ∷ 914829 x- 7
    ∷ 895918 x+ 59
    ∷ 24128 x+ 34
    ∷ 100198 x- 17
    ∷ 56705 x- 65
    ∷ 21971 x- 41
    ∷ 825045 x+ 13
    ∷ 835534 x+ 5
    ∷ 139279 x- 74
    ∷ 222532 x- 7
    ∷ 886952 x- 43
    ∷ 349649 x+ 41
    ∷ 47084 x+ 91
    ∷ 607600 x- 25
    ∷ 695755 x- 34
    ∷ 768658 x- 82
    ∷ 605195 x- 73
    ∷ 302830 x- 17
    ∷ 572509 x- 67
    ∷ 442782 x+ 18
    ∷ 380093 x- 12
    ∷ 628831 x+ 52
    ∷ 288424 x- 22
    ∷ 371612 x- 90
    ∷ 134302 x+ 45
    ∷ 178675 x- 39
    ∷ 686324 x- 59
    ∷ 117380 x+ 33
    ∷ 175892 x+ 51
    ∷ 312942 x+ 26
    ∷ 797569 x+ 37
    ∷ 192913 x- 49
    ∷ 803917 x- 91
    ∷ 364029 x+ 72
    ∷ 151740 x+ 42
    ∷ 879012 x+ 97
    ∷ 434843 x- 100
    ∷ 651002 x+ 89
    ∷ 731633 x- 1
    ∷ 451806 x- 66
    ∷ 744378 x+ 81
    ∷ 880950 x- 97
    ∷ 245447 x+ 29
    ∷ 351105 x+ 16
    ∷ 981936 x+ 14
    ∷ 682071 x+ 15
    ∷ 888557 x+ 10
    ∷ 462815 x+ 55
    ∷ 378908 x+ 16
    ∷ 700993 x+ 15
    ∷ 411318 x- 37
    ∷ 263593 x+ 73
    ∷ 903823 x- 2
    ∷ 383173 x+ 14
    ∷ 282412 x- 94
    ∷ 829840 x+ 4
    ∷ 614920 x- 76
    ∷ 180434 x- 34
    ∷ 441981 x+ 2
    ∷ 492826 x- 72
    ∷ 957544 x+ 98
    ∷ 965555 x- 49
    ∷ 83787 x- 70
    ∷ 158992 x+ 30
    ∷ 918285 x+ 46
    ∷ 236464 x- 26
    ∷ 263664 x- 68
    ∷ 161605 x+ 93
    ∷ 986649 x+ 17
    ∷ 183556 x+ 99
    ∷ 978830 x+ 72
    ∷ 59164 x- 9
    ∷ 683417 x+ 94
    ∷ 497256 x- 4
    ∷ 57090 x+ 100
    ∷ 859538 x- 57
    ∷ 543139 x+ 96
    ∷ 517019 x- 36
    ∷ 340574 x+ 54
    ∷ 373484 x- 8
    ∷ 590651 x+ 76
    ∷ 947601 x- 27
    ∷ 16441 x- 62
    ∷ 576674 x+ 19
    ∷ 869706 x+ 89
    ∷ 603887 x+ 43
    ∷ 613883 x- 58
    ∷ 301085 x+ 13
    ∷ 507845 x+ 17
    ∷ 50203 x- 47
    ∷ 136689 x- 83
    ∷ 150876 x- 38
    ∷ 657420 x+ 92
    ∷ 421976 x- 71
    ∷ 325725 x- 5
    ∷ 100679 x- 28
    ∷ 984352 x- 22
    ∷ 901980 x+ 59
    ∷ 924973 x- 38
    ∷ 539229 x- 85
    ∷ 898988 x+ 81
    ∷ 208495 x- 26
    ∷ 953136 x- 85
    ∷ 204736 x+ 38
    ∷ 230755 x+ 53
    ∷ 514582 x- 39
    ∷ 110643 x- 22
    ∷ 141254 x- 24
    ∷ 325753 x- 22
    ∷ 992738 x+ 36
    ∷ 164783 x- 4
    ∷ 527550 x+ 54
    ∷ 163887 x- 17
    ∷ 559584 x- 34
    ∷ 318769 x+ 43
    ∷ 476847 x- 56
    ∷ 394080 x+ 43
    ∷ 692540 x- 19
    ∷ 696370 x+ 63
    ∷ 906584 x+ 21
    ∷ 976421 x+ 43
    ∷ 520007 x- 92
    ∷ 789292 x- 15
    ∷ 311492 x- 42
    ∷ 94718 x+ 41
    ∷ 742656 x- 78
    ∷ []
