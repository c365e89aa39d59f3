-- ===== src/Scripts/Tables/Script3004/PartB.antt =====
-- The functions 150 to 299 of sample-assets-small/script-0004.js, a row for each line.
use cache_server_go.Base.{List, [], ◌∷◌}
use cache_server_go.Scripts.Fn.{Fn, ◌x+◌, ◌x-◌}

unfoldable pub fns_3004_b : List Fn
fns_3004_b =
    792690 x+ 44
    ∷ 770934 x- 5
    ∷ 239897 x+ 57
    ∷ 146421 x- 1
    ∷ 156908 x+ 51
    ∷ 257766 x- 79
    ∷ 256340 x- 99
    ∷ 920748 x+ 31
    ∷ 296414 x+ 13
    ∷ 327793 x+ 64
    ∷ 944088 x- 9
    ∷ 509581 x+ 54
    ∷ 414063 x+ 59
    ∷ 721543 x+ 89
    ∷ 7041 x- 67
    ∷ 924295 x- 86
    ∷ 548709 x- 81
    ∷ 625373 x- 93
    ∷ 778160 x+ 67
    ∷ 496674 x- 4
    ∷ 323041 x- 6
    ∷ 823709 x- 1
    ∷ 188841 x- 68
    ∷ 605901 x+ 83
    ∷ 546335 x- 84
    ∷ 384409 x+ 69
    ∷ 973298 x+ 95
    ∷ 480804 x+ 14
    ∷ 887573 x+ 27
    ∷ 910169 x- 16
    ∷ 59612 x- 81
    ∷ 775172 x+ 41
    ∷ 876966 x- 50
    ∷ 32192 x- 4
    ∷ 683864 x+ 73
    ∷ 62436 x- 13
    ∷ 46199 x+ 98
    ∷ 122517 x- 47
    ∷ 251607 x+ 3
    ∷ 955600 x+ 26
    ∷ 74169 x- 12
    ∷ 843482 x- 44
    ∷ 464706 x+ 85
    ∷ 569984 x- 12
    ∷ 114358 x+ 84
    ∷ 322459 x+ 59
    ∷ 650923 x- 81
    ∷ 842437 x- 56
    ∷ 47819 x+ 63
    ∷ 746448 x+ 29
    ∷ 830958 x- 21
    ∷ 308227 x- 53
    ∷ 825020 x- 41
    ∷ 165978 x- 91
    ∷ 829569 x- 8
    ∷ 784228 x+ 96
    ∷ 997679 x+ 17
    ∷ 885859 x+ 92
    ∷ 31944 x+ 32
    ∷ 539492 x+ 46
    ∷ 593790 x- 4
    ∷ 710974 x+ 24
    ∷ 960921 x- 19
    ∷ 712386 x- 52
    ∷ 501775 x+ 97
    ∷ 913864 x+ 89
    ∷ 569737 x- 69
    ∷ 99827 x+ 36
    ∷ 50465 x- 71
    ∷ 566352 x+ 24
    ∷ 835381 x- 77
    ∷ 122840 x+ 90
    ∷ 403724 x+ 40
    ∷ 277457 x- 53
    ∷ 597088 x+ 36
    ∷ 652978 x- 85
    ∷ 710221 x- 54
    ∷ 772131 x+ 6
    ∷ 872800 x+ 79
    ∷ 453917 x+ 4
    ∷ 126272 x- 25
    ∷ 34962 x- 10
    ∷ 736056 x+ 84
    ∷ 936977 x- 33
    ∷ 156443 x+ 8
    ∷ 647811 x- 40
    ∷ 751561 x+ 1
    ∷ 947712 x+ 54
    ∷ 547377 x- 87
    ∷ 212134 x- 87
    ∷ 367101 x- 13
    ∷ 650899 x- 97
    ∷ 934526 x- 8
    ∷ 428177 x- 23
    ∷ 771446 x- 100
    ∷ 101114 x+ 54
    ∷ 928368 x+ 93
    ∷ 442422 x- 66
    ∷ 975842 x+ 8
    ∷ 741359 x- 73
    ∷ 963280 x- 92
    ∷ 836256 x+ 96
    ∷ 222607 x+ 82
    ∷ 225752 x+ 32
    ∷ 660999 x- 25
    ∷ 723727 x- 55
    ∷ 65799 x- 25
    ∷ 838053 x- 94
    ∷ 878984 x+ 2
    ∷ 604502 x+ 92
    ∷ 522502 x- 31
    ∷ 651290 x- 64
    ∷ 131629 x- 26
    ∷ 318331 x+ 92
    ∷ 743298 x+ 46
    ∷ 667567 x- 48
    ∷ 588402 x- 24
    ∷ 20634 x- 16
    ∷ 954976 x+ 48
    ∷ 427448 x+ 61
    ∷ 688851 x+ 55
    ∷ 57380 x+ 99
    ∷ 903924 x- 84
    ∷ 763238 x+ 74
    ∷ 605484 x+ 28
    ∷ 651864 x- 26
    ∷ 580656 x- 8
    ∷ 922552 x- 7
    ∷ 764634 x+ 46
    ∷ 428045 x+ 55
    ∷ 671857 x+ 45
    ∷ 614735 x- 73
    ∷ 13011 x- 72
    ∷ 616397 x- 52
    ∷ 565015 x- 98
    ∷ 239648 x+ 29
    ∷ 54132 x- 19
    ∷ 607318 x- 96
    ∷ 440177 x+ 61
    ∷ 698988 x+ 87
    ∷ 983132 x- 15
    ∷ 60592 x- 4
    ∷ 535409 x- 62
    ∷ 573379 x+ 16
    ∷ 992095 x- 72
    ∷ 654089 x+ 9
    ∷ 696133 x- 68
    ∷ 93046 x- 2
    ∷ 119592 x- 14
    ∷ 169120 x- 63
    ∷ []
