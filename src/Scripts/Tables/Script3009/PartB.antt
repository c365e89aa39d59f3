-- ===== src/Scripts/Tables/Script3009/PartB.antt =====
-- The functions 150 to 299 of sample-assets-small/script-0009.js, a row for each line.
use cache_server_go.Base.{List, [], ◌∷◌}
use cache_server_go.Scripts.Fn.{Fn, ◌x+◌, ◌x-◌}

unfoldable pub fns_3009_b : List Fn
fns_3009_b =
    811092 x+ 16
    ∷ 524045 x+ 50
    ∷ 28575 x- 97
    ∷ 611451 x- 79
    ∷ 904944 x+ 63
    ∷ 717305 x- 22
    ∷ 143709 x+ 47
    ∷ 74864 x+ 41
    ∷ 567863 x- 62
    ∷ 291584 x+ 91
    ∷ 275586 x- 73
    ∷ 209615 x- 80
    ∷ 717869 x- 71
    ∷ 882085 x- 65
    ∷ 344687 x+ 4
    ∷ 239389 x+ 13
    ∷ 837860 x- 70
    ∷ 698706 x+ 12
    ∷ 678548 x- 62
    ∷ 508950 x- 88
    ∷ 545140 x- 81
    ∷ 829212 x+ 67
    ∷ 125760 x+ 31
    ∷ 614386 x+ 25
    ∷ 395192 x+ 80
    ∷ 490059 x- 74
    ∷ 689148 x- 37
    ∷ 586629 x+ 8
    ∷ 459317 x- 2
    ∷ 651780 x+ 9
    ∷ 123829 x- 92
    ∷ 21234 x- 94
    ∷ 660614 x+ 11
    ∷ 649027 x+ 42
    ∷ 555920 x+ 95
    ∷ 41057 x- 31
    ∷ 20631 x+ 51
    ∷ 411221 x- 64
    ∷ 504269 x- 95
    ∷ 115446 x+ 15
    ∷ 336265 x+ 2
    ∷ 654835 x+ 4
    ∷ 386811 x+ 25
    ∷ 958237 x- 93
    ∷ 68193 x- 99
    ∷ 851667 x+ 33
    ∷ 297695 x- 26
    ∷ 344367 x- 8
    ∷ 170631 x+ 90
    ∷ 18256 x+ 99
    ∷ 855334 x- 26
    ∷ 882608 x- 44
    ∷ 679329 x+ 99
    ∷ 368562 x- 90
    ∷ 14362 x- 67
    ∷ 47300 x+ 69
    ∷ 925116 x+ 77
    ∷ 231419 x+ 14
    ∷ 557654 x- 40
    ∷ 472175 x+ 53
    ∷ 123148 x+ 82
    ∷ 238182 x- 2
    ∷ 232088 x- 59
    ∷ 958071 x- 52
    ∷ 374647 x+ 98
    ∷ 241404 x- 28
    ∷ 657975 x+ 81
    ∷ 800579 x- 96
    ∷ 467095 x- 40
    ∷ 996098 x+ 15
    ∷ 120529 x- 1
    ∷ 953570 x- 13
    ∷ 892516 x- 26
    ∷ 679495 x+ 99
    ∷ 837349 x- 19
    ∷ 210775 x+ 9
    ∷ 454879 x+ 0
    ∷ 195671 x+ 53
    ∷ 372086 x- 31
    ∷ 997669 x+ 40
    ∷ 580705 x- 81
    ∷ 511759 x+ 3
    ∷ 174992 x- 2
    ∷ 920873 x+ 48
    ∷ 403137 x- 78
    ∷ 486048 x+ 94
    ∷ 486257 x+ 31
    ∷ 341822 x- 28
    ∷ 789455 x+ 87
    ∷ 650242 x- 10
    ∷ 397985 x- 25
    ∷ 767497 x+ 75
    ∷ 880336 x+ 67
    ∷ 649976 x- 91
    ∷ 357787 x- 44
    ∷ 625966 x+ 70
    ∷ 500680 x- 60
    ∷ 467672 x+ 74
    ∷ 825247 x- 30
    ∷ 495341 x+ 51
    ∷ 297613 x+ 13
    ∷ 466840 x- 88
    ∷ 401371 x- 77
    ∷ 331462 x- 12
    ∷ 891857 x- 4
    ∷ 495051 x- 95
    ∷ 384429 x- 4
    ∷ 659370 x- 63
    ∷ 303694 x- 49
    ∷ 418815 x+ 4
    ∷ 123807 x- 17
    ∷ 911396 x+ 58
    ∷ 28055 x+ 45
    ∷ 719605 x- 52
    ∷ 258374 x+ 57
    ∷ 197887 x+ 20
    ∷ 905045 x+ 24
    ∷ 421762 x+ 21
    ∷ 470927 x+ 53
    ∷ 801521 x+ 80
    ∷ 799912 x+ 73
    ∷ 515036 x- 35
    ∷ 646659 x+ 3
    ∷ 878997 x- 46
    ∷ 620503 x+ 47
    ∷ 633927 x- 73
    ∷ 360061 x+ 75
    ∷ 321988 x+ 39
    ∷ 836681 x- 96
    ∷ 673548 x+ 65
    ∷ 54549 x- 10
    ∷ 409365 x- 39
    ∷ 888306 x+ 49
    ∷ 771754 x- 82
    ∷ 186666 x+ 18
    ∷ 98231 x- 59
    ∷ 724791 x+ 28
    ∷ 60603 x+ 61
    ∷ 385590 x+ 23
    ∷ 338532 x+ 13
    ∷ 776675 x- 79
    ∷ 33878 x+ 31
    ∷ 635921 x- 71
    ∷ 654373 x- 51
    ∷ 240936 x+ 15
    ∷ 747955 x- 100
    ∷ 480003 x+ 70
    ∷ 694490 x+ 29
    ∷ 417360 x+ 5
    ∷ 631354 x- 17
    ∷ []
