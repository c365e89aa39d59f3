-- ===== src/Scripts/Tables/Script3021/PartB.antt =====
-- The functions 150 to 299 of sample-assets-small/script-0021.js, a row for each line.
use cache_server_go.Base.{List, [], ◌∷◌}
use cache_server_go.Scripts.Fn.{Fn, ◌x+◌, ◌x-◌}

unfoldable pub fns_3021_b : List Fn
fns_3021_b =
    764257 x- 30
    ∷ 486728 x- 79
    ∷ 61151 x- 55
    ∷ 565106 x- 38
    ∷ 787977 x- 13
    ∷ 426265 x+ 100
    ∷ 332162 x+ 33
    ∷ 451787 x- 12
    ∷ 816941 x+ 18
    ∷ 188283 x- 63
    ∷ 29207 x- 99
    ∷ 185686 x+ 61
    ∷ 204335 x+ 21
    ∷ 79898 x- 49
    ∷ 582227 x+ 88
    ∷ 655933 x+ 13
    ∷ 467948 x- 35
    ∷ 324030 x- 46
    ∷ 3612 x+ 14
    ∷ 181463 x+ 8
    ∷ 474425 x+ 19
    ∷ 422590 x+ 58
    ∷ 703487 x+ 31
    ∷ 32640 x+ 20
    ∷ 985889 x+ 29
    ∷ 94940 x+ 44
    ∷ 140475 x+ 1
    ∷ 697569 x- 55
    ∷ 936160 x+ 76
    ∷ 564881 x+ 43
    ∷ 463696 x+ 13
    ∷ 854035 x+ 70
    ∷ 694566 x- 86
    ∷ 252321 x+ 0
    ∷ 145296 x+ 4
    ∷ 873006 x+ 75
    ∷ 992409 x+ 50
    ∷ 391631 x- 12
    ∷ 300390 x- 64
    ∷ 248730 x+ 99
    ∷ 144049 x- 19
    ∷ 652394 x- 8
    ∷ 455550 x- 12
    ∷ 293295 x+ 99
    ∷ 808508 x+ 63
    ∷ 799048 x- 40
    ∷ 427086 x+ 86
    ∷ 13768 x- 3
    ∷ 610209 x+ 45
    ∷ 359029 x+ 67
    ∷ 870325 x+ 17
    ∷ 862923 x+ 87
    ∷ 984548 x+ 49
    ∷ 21055 x- 27
    ∷ 618151 x- 76
    ∷ 803873 x- 98
    ∷ 834803 x- 32
    ∷ 296834 x- 17
    ∷ 261186 x- 50
    ∷ 807577 x- 95
    ∷ 76564 x+ 60
    ∷ 603170 x- 8
    ∷ 460989 x- 27
    ∷ 296469 x- 81
    ∷ 71181 x- 49
    ∷ 716739 x- 25
    ∷ 3516 x+ 5
    ∷ 385914 x+ 3
    ∷ 87221 x+ 23
    ∷ 333059 x+ 26
    ∷ 557554 x+ 72
    ∷ 293710 x+ 95
    ∷ 748472 x+ 38
    ∷ 2262 x+ 45
    ∷ 203135 x- 86
    ∷ 982036 x+ 46
    ∷ 239212 x+ 29
    ∷ 594814 x+ 78
    ∷ 174812 x+ 75
    ∷ 151980 x+ 43
    ∷ 618401 x- 37
    ∷ 448431 x+ 31
    ∷ 306868 x- 9
    ∷ 719047 x+ 63
    ∷ 192269 x- 55
    ∷ 968703 x- 37
    ∷ 727297 x- 85
    ∷ 748782 x+ 0
    ∷ 126258 x- 31
    ∷ 798609 x- 11
    ∷ 102181 x- 5
    ∷ 709085 x- 18
    ∷ 746093 x- 70
    ∷ 335412 x- 6
    ∷ 103868 x- 19
    ∷ 947420 x+ 23
    ∷ 578228 x+ 87
    ∷ 414122 x+ 23
    ∷ 128490 x+ 15
    ∷ 813239 x+ 73
    ∷ 547768 x+ 38
    ∷ 859651 x- 95
    ∷ 408122 x- 87
    ∷ 144802 x+ 5
    ∷ 632584 x+ 38
    ∷ 292470 x+ 71
    ∷ 844726 x- 92
    ∷ 950738 x+ 38
    ∷ 526495 x- 66
    ∷ 449942 x+ 77
    ∷ 487661 x- 27
    ∷ 523369 x- 77
    ∷ 191434 x- 51
    ∷ 422561 x+ 66
    ∷ 57016 x+ 76
    ∷ 818350 x- 79
    ∷ 551191 x+ 84
    ∷ 90395 x- 4
    ∷ 678625 x+ 35
    ∷ 135244 x+ 32
    ∷ 742628 x- 10
    ∷ 955265 x- 78
    ∷ 889463 x- 93
    ∷ 268986 x+ 24
    ∷ 522021 x+ 40
    ∷ 723269 x- 65
    ∷ 148110 x- 91
    ∷ 656529 x- 43
    ∷ 174165 x+ 35
    ∷ 674374 x- 93
    ∷ 40197 x+ 67
    ∷ 988673 x+ 91
    ∷ 226476 x- 32
    ∷ 444590 x- 30
    ∷ 236954 x- 33
    ∷ 379862 x+ 22
    ∷ 230980 x- 90
    ∷ 264246 x- 60
    ∷ 620386 x+ 65
    ∷ 367267 x+ 97
    ∷ 100474 x- 11
    ∷ 355814 x+ 58
    ∷ 416943 x- 84
    ∷ 304179 x+ 54
    ∷ 572972 x+ 99
    ∷ 566393 x- 27
    ∷ 936172 x+ 97
    ∷ 781643 x+ 49
    ∷ 228953 x+ 44
    ∷ 716749 x+ 58
    ∷ []
