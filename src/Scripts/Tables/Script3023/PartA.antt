-- ===== src/Scripts/Tables/Script3023/PartA.antt =====
-- The functions 0 to 149 of sample-assets-small/script-0023.js, a row for each line.
use cache_server_go.Base.{List, [], ◌∷◌}
use cache_server_go.Scripts.Fn.{Fn, ◌x+◌, ◌x-◌}

unfoldable pub fns_3023_a : List Fn
fns_3023_a =
    577962 x+ 7
    ∷ 834833 x+ 89
    ∷ 474179 x+ 7
    ∷ 994171 x- 47
    ∷ 266406 x- 44
    ∷ 337761 x+ 23
    ∷ 837430 x- 68
    ∷ 946246 x- 80
    ∷ 146258 x+ 70
    ∷ 208648 x+ 19
    ∷ 146095 x- 98
    ∷ 173653 x+ 93
    ∷ 415289 x- 6
    ∷ 711589 x- 18
    ∷ 660418 x- 27
    ∷ 471363 x- 10
    ∷ 805890 x- 85
    ∷ 466043 x- 33
    ∷ 441209 x- 98
    ∷ 200343 x- 50
    ∷ 14739 x- 3
    ∷ 155763 x- 26
    ∷ 692365 x- 56
    ∷ 650644 x+ 55
    ∷ 752841 x- 91
    ∷ 789689 x+ 72
    ∷ 718073 x+ 13
    ∷ 40789 x- 2
    ∷ 836357 x- 36
    ∷ 29603 x+ 38
    ∷ 780686 x- 47
    ∷ 901327 x+ 47
    ∷ 936315 x- 23
    ∷ 35929 x+ 18
    ∷ 189406 x- 46
    ∷ 982106 x- 97
    ∷ 886757 x+ 87
    ∷ 688471 x- 98
    ∷ 454821 x+ 54
    ∷ 824320 x+ 52
    ∷ 594412 x+ 32
    ∷ 465483 x+ 9
    ∷ 720897 x- 97
    ∷ 951623 x- 75
    ∷ 105423 x+ 80
    ∷ 445443 x+ 73
    ∷ 215856 x- 94
    ∷ 5025 x+ 10
    ∷ 378223 x- 88
    ∷ 983436 x- 87
    ∷ 841614 x+ 28
    ∷ 5663 x+ 55
    ∷ 911391 x- 5
    ∷ 172927 x- 88
    ∷ 803097 x+ 43
    ∷ 55517 x+ 91
    ∷ 419910 x- 73
    ∷ 621571 x- 49
    ∷ 378566 x+ 71
    ∷ 653772 x- 51
    ∷ 793251 x- 27
    ∷ 101937 x+ 89
    ∷ 936775 x- 9
    ∷ 318909 x- 17
    ∷ 900055 x- 6
    ∷ 77212 x+ 62
    ∷ 76026 x+ 81
    ∷ 876755 x+ 45
    ∷ 661382 x+ 96
    ∷ 246949 x+ 13
    ∷ 128879 x- 22
    ∷ 555268 x- 62
    ∷ 105789 x+ 33
    ∷ 490669 x- 60
    ∷ 428729 x- 81
    ∷ 69420 x- 62
    ∷ 595645 x+ 1
    ∷ 499300 x- 95
    ∷ 603603 x+ 33
    ∷ 596932 x+ 88
    ∷ 837506 x- 64
    ∷ 724840 x+ 85
    ∷ 192163 x- 47
    ∷ 783529 x- 7
    ∷ 416550 x- 44
    ∷ 390557 x- 4
    ∷ 406517 x+ 74
    ∷ 540924 x+ 80
    ∷ 785398 x+ 8
    ∷ 106545 x+ 99
    ∷ 482057 x- 43
    ∷ 979741 x- 26
    ∷ 910184 x- 45
    ∷ 746488 x+ 28
    ∷ 619097 x+ 95
    ∷ 287512 x- 67
    ∷ 53803 x+ 4
    ∷ 121058 x- 60
    ∷ 393397 x- 84
    ∷ 23838 x+ 87
    ∷ 460314 x+ 10
    ∷ 687268 x- 18
    ∷ 546210 x- 96
    ∷ 154726 x+ 67
    ∷ 534477 x+ 54
    ∷ 820725 x- 22
    ∷ 428969 x+ 55
    ∷ 355799 x- 81
    ∷ 883569 x+ 3
    ∷ 260929 x+ 28
    ∷ 133075 x+ 85
    ∷ 695228 x- 25
    ∷ 861379 x- 45
    ∷ 978573 x- 28
    ∷ 443640 x+ 57
    ∷ 10209 x+ 41
    ∷ 128706 x+ 23
    ∷ 688558 x- 47
    ∷ 155569 x- 95
    ∷ 974436 x+ 33
    ∷ 738303 x+ 89
    ∷ 348414 x+ 77
    ∷ 353839 x- 18
    ∷ 598893 x- 17
    ∷ 554203 x- 64
    ∷ 873253 x+ 21
    ∷ 580875 x+ 89
    ∷ 673035 x- 45
    ∷ 351966 x+ 41
    ∷ 949654 x- 83
    ∷ 226837 x- 4
    ∷ 415075 x- 49
    ∷ 306859 x- 98
    ∷ 773882 x- 62
    ∷ 137957 x- 58
    ∷ 158827 x+ 31
    ∷ 244672 x+ 17
    ∷ 50620 x- 42
    ∷ 532029 x+ 68
    ∷ 28887 x+ 34
    ∷ 524635 x+ 23
    ∷ 787723 x- 96
    ∷ 969070 x+ 29
    ∷ 147634 x- 59
    ∷ 220933 x- 44
    ∷ 939799 x- 19
    ∷ 464873 x- 14
    ∷ 142487 x- 84
    ∷ 471309 x- 30
    ∷ 146378 x+ 60
    ∷ []
