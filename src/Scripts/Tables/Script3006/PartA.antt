-- ===== src/Scripts/Tables/Script3006/PartA.antt =====
-- The functions 0 to 149 of sample-assets-small/script-0006.js, a row for each line.
use cache_server_go.Base.{List, [], ◌∷◌}
use cache_server_go.Scripts.Fn.{Fn, ◌x+◌, ◌x-◌}

unfoldable pub fns_3006_a : List Fn
fns_3006_a =
    708649 x+ 80
    ∷ 933356 x+ 32
    ∷ 941650 x+ 44
    ∷ 289867 x- 17
    ∷ 783468 x- 43
    ∷ 774195 x+ 82
    ∷ 568834 x- 12
    ∷ 469200 x- 75
    ∷ 325532 x- 23
    ∷ 609728 x- 7
    ∷ 61199 x+ 1
    ∷ 279525 x+ 63
    ∷ 616289 x+ 94
    ∷ 780742 x- 15
    ∷ 826406 x- 67
    ∷ 798105 x- 6
    ∷ 129702 x- 88
    ∷ 977130 x+ 14
    ∷ 881298 x- 11
    ∷ 518628 x+ 12
    ∷ 119528 x- 39
    ∷ 690706 x- 99
    ∷ 606833 x+ 20
    ∷ 258345 x+ 2
    ∷ 257780 x+ 33
    ∷ 958065 x- 27
    ∷ 478110 x+ 91
    ∷ 832026 x- 58
    ∷ 77029 x- 24
    ∷ 717719 x- 53
    ∷ 70492 x- 56
    ∷ 582422 x- 91
    ∷ 340105 x+ 4
    ∷ 790301 x+ 90
    ∷ 770685 x+ 42
    ∷ 563579 x- 70
    ∷ 184085 x+ 0
    ∷ 652333 x+ 33
    ∷ 926745 x+ 41
    ∷ 604145 x+ 48
    ∷ 421406 x+ 63
    ∷ 693601 x- 61
    ∷ 817862 x+ 51
    ∷ 427581 x+ 38
    ∷ 5322 x- 42
    ∷ 543808 x- 70
    ∷ 312485 x- 90
    ∷ 516064 x+ 28
    ∷ 654961 x- 20
    ∷ 647794 x+ 46
    ∷ 876574 x+ 37
    ∷ 595629 x+ 38
    ∷ 510886 x+ 6
    ∷ 333907 x+ 43
    ∷ 20173 x- 81
    ∷ 453712 x- 46
    ∷ 468485 x- 91
    ∷ 729841 x- 56
    ∷ 547710 x- 48
    ∷ 98070 x+ 57
    ∷ 674734 x- 33
    ∷ 843624 x+ 46
    ∷ 629725 x+ 94
    ∷ 771528 x- 21
    ∷ 608178 x+ 35
    ∷ 465282 x+ 0
    ∷ 688482 x+ 64
    ∷ 814867 x+ 35
    ∷ 599616 x+ 90
    ∷ 487141 x+ 37
    ∷ 655798 x- 56
    ∷ 64479 x+ 56
    ∷ 808066 x- 17
    ∷ 134959 x+ 84
    ∷ 324961 x+ 50
    ∷ 669368 x- 29
    ∷ 52338 x+ 34
    ∷ 728470 x+ 21
    ∷ 27332 x- 43
    ∷ 845174 x+ 77
    ∷ 510402 x+ 8
    ∷ 982831 x- 58
    ∷ 259402 x+ 25
    ∷ 272474 x+ 31
    ∷ 186976 x- 79
    ∷ 902300 x- 92
    ∷ 957987 x- 14
    ∷ 206289 x+ 88
    ∷ 567469 x- 70
    ∷ 793447 x- 43
    ∷ 54739 x+ 7
    ∷ 818835 x- 45
    ∷ 702770 x+ 73
    ∷ 79896 x- 30
    ∷ 910049 x- 71
    ∷ 575215 x+ 41
    ∷ 232858 x- 13
    ∷ 403620 x- 76
    ∷ 110624 x+ 59
    ∷ 971820 x+ 6
    ∷ 862042 x+ 74
    ∷ 539317 x+ 92
    ∷ 720984 x- 71
    ∷ 768610 x+ 65
    ∷ 79308 x- 80
    ∷ 751782 x- 66
    ∷ 224090 x- 29
    ∷ 296934 x- 38
    ∷ 720536 x+ 0
    ∷ 464650 x+ 38
    ∷ 875016 x- 48
    ∷ 140286 x- 42
    ∷ 920948 x- 91
    ∷ 73295 x- 81
    ∷ 926699 x+ 95
    ∷ 766509 x- 66
    ∷ 96701 x+ 99
    ∷ 213683 x- 25
    ∷ 356310 x- 83
    ∷ 183569 x- 83
    ∷ 327398 x+ 56
    ∷ 125043 x- 42
    ∷ 686476 x+ 20
    ∷ 569540 x- 84
    ∷ 725527 x- 72
    ∷ 876350 x+ 99
    ∷ 756296 x- 46
    ∷ 727806 x+ 6
    ∷ 276962 x+ 79
    ∷ 958536 x- 39
    ∷ 865910 x+ 58
    ∷ 677891 x+ 2
    ∷ 755021 x- 23
    ∷ 996684 x- 85
    ∷ 856489 x- 21
    ∷ 521596 x+ 40
    ∷ 526884 x- 63
    ∷ 493364 x+ 19
    ∷ 766444 x+ 31
    ∷ 202858 x+ 31
    ∷ 512008 x- 84
    ∷ 394424 x+ 69
    ∷ 18629 x+ 85
    ∷ 706117 x+ 77
    ∷ 661459 x- 70
    ∷ 629383 x+ 90
    ∷ 642416 x- 72
    ∷ 775662 x+ 57
    ∷ 233002 x- 12
    ∷ 802519 x- 20
    ∷ []
