-- ===== src/Scripts/Tables/Script3017/PartB.antt =====
-- The functions 150 to 257 of sample-assets-small/script-0017.js, a row for each line.
use cache_server_go.Base.{List, [], ◌∷◌}
use cache_server_go.Scripts.Fn.{Fn, ◌x+◌, ◌x-◌}

unfoldable pub fns_3017_b : List Fn
fns_3017_b =
    577819 x- 58
    ∷ 639085 x+ 6
    ∷ 487919 x- 42
    ∷ 91498 x+ 27
    ∷ 91311 x- 48
    ∷ 228091 x+ 53
    ∷ 811595 x- 69
    ∷ 93616 x+ 39
    ∷ 758921 x+ 75
    ∷ 24136 x- 72
    ∷ 226781 x- 81
    ∷ 167586 x+ 10
    ∷ 543452 x- 39
    ∷ 922588 x- 71
    ∷ 299328 x+ 32
    ∷ 889248 x- 1
    ∷ 212469 x+ 74
    ∷ 761235 x- 49
    ∷ 336046 x+ 6
    ∷ 459821 x+ 36
    ∷ 79511 x- 42
    ∷ 948763 x- 23
    ∷ 520783 x- 89
    ∷ 365298 x- 100
    ∷ 595984 x- 64
    ∷ 16751 x+ 63
    ∷ 790167 x+ 17
    ∷ 496636 x- 28
    ∷ 52426 x- 52
    ∷ 947804 x- 14
    ∷ 797985 x- 76
    ∷ 464108 x- 70
    ∷ 434890 x- 62
    ∷ 729943 x- 78
    ∷ 124524 x+ 23
    ∷ 74178 x+ 81
    ∷ 131193 x- 96
    ∷ 53938 x- 66
    ∷ 312931 x+ 44
    ∷ 923757 x+ 52
    ∷ 684781 x- 18
    ∷ 554651 x+ 41
    ∷ 289773 x+ 36
    ∷ 738823 x- 21
    ∷ 136893 x+ 78
    ∷ 76468 x+ 15
    ∷ 422711 x- 60
    ∷ 67076 x+ 57
    ∷ 188744 x- 7
    ∷ 601527 x- 69
    ∷ 287024 x+ 79
    ∷ 379839 x- 14
    ∷ 601245 x- 34
    ∷ 705422 x- 79
    ∷ 935627 x- 97
    ∷ 14428 x- 7
    ∷ 809602 x+ 1
    ∷ 61145 x- 50
    ∷ 497064 x- 71
    ∷ 640670 x- 68
    ∷ 228981 x- 75
    ∷ 346759 x+ 33
    ∷ 300549 x- 47
    ∷ 282138 x+ 35
    ∷ 319900 x- 19
    ∷ 355943 x+ 28
    ∷ 713728 x- 40
    ∷ 435811 x- 74
    ∷ 751048 x- 74
    ∷ 932741 x+ 31
    ∷ 621695 x- 68
    ∷ 528764 x+ 16
    ∷ 460822 x- 13
    ∷ 553570 x- 46
    ∷ 870946 x- 84
    ∷ 922179 x+ 87
    ∷ 621071 x- 67
    ∷ 875863 x- 73
    ∷ 562883 x+ 30
    ∷ 193481 x+ 32
    ∷ 991501 x- 65
    ∷ 770944 x- 99
    ∷ 519356 x+ 67
    ∷ 572618 x- 45
    ∷ 280133 x+ 53
    ∷ 39155 x+ 60
    ∷ 337700 x- 80
    ∷ 88077 x+ 37
    ∷ 144346 x- 48
    ∷ 267064 x+ 63
    ∷ 267755 x+ 21
    ∷ 300799 x+ 82
    ∷ 188514 x- 36
    ∷ 313107 x- 17
    ∷ 877072 x- 15
    ∷ 165148 x- 66
    ∷ 486159 x- 73
    ∷ 671993 x+ 85
    ∷ 44299 x+ 47
    ∷ 410208 x- 94
    ∷ 490881 x- 78
    ∷ 776156 x- 44
    ∷ 371678 x+ 94
    ∷ 239769 x- 91
    ∷ 15056 x+ 57
    ∷ 728949 x- 46
    ∷ 714130 x+ 84
    ∷ 377495 x+ 73
    ∷ []
