-- ===== src/Scripts/Tables/Script3028/PartC.antt =====
-- The functions 300 to 422 of sample-assets-small/script-0028.js, a row for each line.
use cache_server_go.Base.{List, [], ◌∷◌}
use cache_server_go.Scripts.Fn.{Fn, ◌x+◌, ◌x-◌}

unfoldable pub fns_3028_c : List Fn
fns_3028_c =
    946643 x- 94
    ∷ 677252 x- 59
    ∷ 689219 x- 87
    ∷ 392967 x- 35
    ∷ 138009 x- 78
    ∷ 906017 x+ 74
    ∷ 897316 x- 36
    ∷ 450012 x- 94
    ∷ 326462 x+ 36
    ∷ 885918 x- 13
    ∷ 533641 x+ 33
    ∷ 98818 x+ 40
    ∷ 883063 x+ 91
    ∷ 870148 x+ 77
    ∷ 648961 x+ 55
    ∷ 801775 x+ 7
    ∷ 166603 x+ 91
    ∷ 40849 x+ 46
    ∷ 195163 x+ 8
    ∷ 715337 x+ 16
    ∷ 307597 x- 68
    ∷ 270034 x+ 45
    ∷ 515547 x- 17
    ∷ 106516 x+ 27
    ∷ 178739 x+ 32
    ∷ 225721 x+ 13
    ∷ 921403 x- 73
    ∷ 861746 x+ 71
    ∷ 473401 x+ 35
    ∷ 891963 x+ 5
    ∷ 625476 x- 95
    ∷ 42638 x+ 35
    ∷ 547594 x- 33
    ∷ 964449 x- 65
    ∷ 709451 x- 97
    ∷ 832504 x+ 59
    ∷ 753381 x- 60
    ∷ 497493 x- 100
    ∷ 448035 x- 87
    ∷ 72711 x+ 72
    ∷ 381538 x- 14
    ∷ 799912 x- 82
    ∷ 802896 x+ 36
    ∷ 994688 x+ 95
    ∷ 813104 x- 82
    ∷ 695931 x- 37
    ∷ 854464 x+ 67
    ∷ 983864 x+ 76
    ∷ 141449 x- 2
    ∷ 482584 x+ 18
    ∷ 500538 x- 19
    ∷ 395244 x- 69
    ∷ 394738 x- 30
    ∷ 688282 x- 33
    ∷ 513858 x- 66
    ∷ 786910 x- 88
    ∷ 309367 x- 56
    ∷ 788243 x+ 8
    ∷ 928017 x- 63
    ∷ 166832 x+ 83
    ∷ 882172 x- 65
    ∷ 17296 x+ 100
    ∷ 724606 x+ 20
    ∷ 465581 x+ 90
    ∷ 556121 x- 57
    ∷ 517128 x+ 89
    ∷ 923924 x+ 33
    ∷ 672882 x- 97
    ∷ 991279 x+ 64
    ∷ 413683 x+ 19
    ∷ 268983 x+ 88
    ∷ 734554 x- 31
    ∷ 591006 x- 32
    ∷ 528091 x+ 71
    ∷ 222743 x+ 10
    ∷ 472871 x- 8
    ∷ 688908 x- 84
    ∷ 239935 x+ 26
    ∷ 509483 x+ 63
    ∷ 458144 x- 96
    ∷ 528532 x- 51
    ∷ 614517 x+ 73
    ∷ 691351 x- 58
    ∷ 688102 x+ 7
    ∷ 572427 x+ 86
    ∷ 840312 x- 44
    ∷ 642362 x- 62
    ∷ 161836 x- 95
    ∷ 729487 x+ 25
    ∷ 747999 x+ 72
    ∷ 955644 x- 5
    ∷ 349547 x+ 29
    ∷ 846530 x- 42
    ∷ 257486 x+ 44
    ∷ 142124 x- 1
    ∷ 387772 x+ 29
    ∷ 624991 x- 53
    ∷ 972577 x- 26
    ∷ 579447 x+ 65
    ∷ 410326 x- 21
    ∷ 698513 x+ 83
    ∷ 617238 x- 58
    ∷ 545209 x+ 33
    ∷ 264883 x- 9
    ∷ 752681 x+ 44
    ∷ 674717 x- 33
    ∷ 495501 x+ 16
    ∷ 294584 x+ 50
    ∷ 296110 x- 84
    ∷ 947674 x- 67
    ∷ 598772 x- 17
    ∷ 617840 x+ 15
    ∷ 478514 x- 14
    ∷ 544546 x- 64
    ∷ 514979 x- 77
    ∷ 457660 x- 93
    ∷ 973636 x+ 96
    ∷ 464214 x+ 5
    ∷ 709873 x- 93
    ∷ 673904 x+ 74
    ∷ 215957 x+ 91
    ∷ 523918 x+ 56
    ∷ 953457 x+ 91
    ∷ []
