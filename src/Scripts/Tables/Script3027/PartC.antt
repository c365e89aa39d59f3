-- ===== src/Scripts/Tables/Script3027/PartC.antt =====
-- The functions 300 to 449 of sample-assets-small/script-0027.js, a row for each line.
use cache_server_go.Base.{List, [], ◌∷◌}
use cache_server_go.Scripts.Fn.{Fn, ◌x+◌, ◌x-◌}

unfoldable pub fns_3027_c : List Fn
fns_3027_c =
    274983 x- 15
    ∷ 643361 x+ 51
    ∷ 326026 x- 76
    ∷ 442538 x- 58
    ∷ 651058 x- 43
    ∷ 699044 x+ 4
    ∷ 538918 x- 65
    ∷ 383584 x+ 3
    ∷ 597869 x+ 43
    ∷ 778761 x+ 32
    ∷ 924733 x+ 45
    ∷ 390133 x+ 44
    ∷ 257348 x- 56
    ∷ 617932 x+ 35
    ∷ 583750 x- 54
    ∷ 479987 x- 18
    ∷ 220175 x- 35
    ∷ 278604 x- 67
    ∷ 724080 x- 19
    ∷ 543833 x+ 14
    ∷ 896855 x- 95
    ∷ 190833 x- 46
    ∷ 584726 x- 44
    ∷ 358974 x- 71
    ∷ 488266 x+ 51
    ∷ 414732 x- 70
    ∷ 557725 x+ 61
    ∷ 150884 x- 36
    ∷ 296387 x+ 34
    ∷ 445116 x+ 99
    ∷ 868651 x+ 47
    ∷ 785679 x+ 29
    ∷ 628284 x+ 46
    ∷ 985914 x+ 17
    ∷ 685631 x- 50
    ∷ 314609 x+ 42
    ∷ 660861 x+ 92
    ∷ 853868 x+ 3
    ∷ 903650 x+ 40
    ∷ 248858 x+ 74
    ∷ 809813 x+ 73
    ∷ 899203 x+ 4
    ∷ 469810 x- 54
    ∷ 422842 x- 24
    ∷ 522117 x+ 67
    ∷ 961927 x- 77
    ∷ 599575 x+ 57
    ∷ 456519 x- 37
    ∷ 641975 x- 72
    ∷ 623660 x- 74
    ∷ 596620 x- 22
    ∷ 16251 x- 90
    ∷ 855075 x+ 50
    ∷ 910411 x- 35
    ∷ 822823 x+ 49
    ∷ 5254 x+ 12
    ∷ 987545 x+ 76
    ∷ 585734 x- 46
    ∷ 623745 x+ 48
    ∷ 912639 x+ 22
    ∷ 864767 x+ 95
    ∷ 613483 x- 84
    ∷ 413069 x- 99
    ∷ 392623 x+ 87
    ∷ 178263 x+ 8
    ∷ 296220 x- 39
    ∷ 13402 x- 16
    ∷ 466295 x- 95
    ∷ 873398 x- 62
    ∷ 24684 x+ 42
    ∷ 688180 x- 90
    ∷ 642698 x+ 34
    ∷ 98179 x+ 15
    ∷ 501904 x- 46
    ∷ 655808 x- 20
    ∷ 956396 x+ 87
    ∷ 197978 x+ 57
    ∷ 950858 x+ 31
    ∷ 84115 x- 21
    ∷ 717663 x- 96
    ∷ 125886 x- 38
    ∷ 379287 x+ 80
    ∷ 546999 x+ 34
    ∷ 904420 x- 2
    ∷ 981905 x- 16
    ∷ 644649 x+ 54
    ∷ 838969 x- 88
    ∷ 904045 x- 55
    ∷ 898182 x- 55
    ∷ 608877 x- 29
    ∷ 784514 x- 78
    ∷ 256134 x+ 15
    ∷ 593104 x+ 81
    ∷ 499334 x+ 67
    ∷ 31920 x+ 61
    ∷ 664258 x- 30
    ∷ 823079 x+ 70
    ∷ 367239 x+ 98
    ∷ 355452 x- 91
    ∷ 112138 x- 25
    ∷ 435186 x- 38
    ∷ 446139 x- 20
    ∷ 654177 x+ 73
    ∷ 234521 x- 60
    ∷ 284712 x+ 23
    ∷ 932921 x+ 18
    ∷ 446343 x+ 75
    ∷ 961321 x+ 65
    ∷ 382243 x- 41
    ∷ 263422 x+ 66
    ∷ 16854 x+ 34
    ∷ 753270 x- 80
    ∷ 98313 x- 46
    ∷ 950411 x+ 72
    ∷ 865848 x- 34
    ∷ 948261 x+ 94
    ∷ 969145 x+ 32
    ∷ 369620 x- 44
    ∷ 350440 x+ 96
    ∷ 745494 x- 48
    ∷ 248770 x+ 40
    ∷ 207599 x- 33
    ∷ 149880 x+ 0
    ∷ 544648 x- 79
    ∷ 15629 x- 40
    ∷ 230308 x+ 24
    ∷ 981717 x- 31
    ∷ 657161 x- 94
    ∷ 548383 x- 91
    ∷ 732611 x+ 3
    ∷ 410748 x- 12
    ∷ 957897 x+ 44
    ∷ 982936 x+ 19
    ∷ 360383 x+ 85
    ∷ 267393 x+ 49
    ∷ 888218 x- 40
    ∷ 548264 x- 77
    ∷ 128218 x+ 3
    ∷ 257595 x- 72
    ∷ 172261 x- 18
    ∷ 808284 x+ 71
    ∷ 134414 x+ 86
    ∷ 285890 x- 78
    ∷ 306864 x+ 27
    ∷ 861098 x+ 64
    ∷ 607219 x+ 18
    ∷ 774947 x- 36
    ∷ 774622 x+ 93
    ∷ 942882 x- 1
    ∷ 17991 x+ 63
    ∷ []
