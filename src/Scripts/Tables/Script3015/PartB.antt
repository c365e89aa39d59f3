-- ===== src/Scripts/Tables/Script3015/PartB.antt =====
-- The functions 150 to 291 of sample-assets-small/script-0015.js, a row for each line.
use cache_server_go.Base.{List, [], ◌∷◌}
use cache_server_go.Scripts.Fn.{Fn, ◌x+◌, ◌x-◌}

unfoldable pub fns_3015_b : List Fn
fns_3015_b =
    975954 x+ 13
    ∷ 881430 x- 19
    ∷ 53368 x- 99
    ∷ 40372 x+ 44
    ∷ 768038 x+ 26
    ∷ 827259 x+ 67
    ∷ 231694 x- 12
    ∷ 546499 x+ 4
    ∷ 719780 x- 69
    ∷ 285909 x- 56
    ∷ 622446 x+ 38
    ∷ 848157 x+ 98
    ∷ 923428 x+ 17
    ∷ 870458 x- 75
    ∷ 397894 x- 28
    ∷ 814096 x+ 52
    ∷ 792526 x+ 17
    ∷ 911969 x- 15
    ∷ 26664 x+ 43
    ∷ 613881 x- 95
    ∷ 58858 x- 5
    ∷ 946201 x- 31
    ∷ 286364 x+ 11
    ∷ 974742 x+ 70
    ∷ 619650 x+ 68
    ∷ 137636 x- 98
    ∷ 793165 x- 64
    ∷ 284335 x- 97
    ∷ 448592 x+ 66
    ∷ 920567 x+ 4
    ∷ 704554 x- 28
    ∷ 480051 x+ 68
    ∷ 482160 x- 19
    ∷ 166656 x- 56
    ∷ 459535 x+ 40
    ∷ 104067 x- 23
    ∷ 574637 x- 13
    ∷ 668046 x- 10
    ∷ 881610 x+ 65
    ∷ 548079 x- 99
    ∷ 648578 x- 92
    ∷ 907176 x+ 36
    ∷ 589181 x+ 18
    ∷ 297912 x- 46
    ∷ 986671 x- 100
    ∷ 790753 x- 70
    ∷ 649378 x- 80
    ∷ 119273 x- 83
    ∷ 792104 x- 100
    ∷ 239418 x+ 98
    ∷ 802026 x- 95
    ∷ 778888 x- 78
    ∷ 362446 x- 65
    ∷ 212976 x+ 18
    ∷ 46886 x- 24
    ∷ 656587 x+ 72
    ∷ 125197 x- 100
    ∷ 421909 x+ 70
    ∷ 475802 x+ 55
    ∷ 223046 x+ 31
    ∷ 699288 x+ 43
    ∷ 345085 x+ 16
    ∷ 80370 x- 2
    ∷ 569424 x- 26
    ∷ 250183 x- 92
    ∷ 830542 x+ 92
    ∷ 640158 x+ 27
    ∷ 241899 x+ 80
    ∷ 570145 x- 57
    ∷ 129810 x- 32
    ∷ 736452 x+ 84
    ∷ 348404 x+ 36
    ∷ 295938 x- 43
    ∷ 205283 x+ 67
    ∷ 155406 x+ 92
    ∷ 196812 x- 80
    ∷ 222937 x+ 29
    ∷ 849113 x+ 67
    ∷ 855119 x+ 73
    ∷ 798641 x+ 36
    ∷ 978862 x- 4
    ∷ 709410 x+ 98
    ∷ 241004 x+ 11
    ∷ 772717 x+ 43
    ∷ 712457 x+ 56
    ∷ 30970 x+ 14
    ∷ 91722 x- 12
    ∷ 446900 x+ 19
    ∷ 660383 x- 86
    ∷ 602532 x+ 30
    ∷ 299724 x+ 58
    ∷ 378713 x- 7
    ∷ 912898 x+ 97
    ∷ 496189 x- 72
    ∷ 178988 x+ 58
    ∷ 469671 x+ 58
    ∷ 404702 x+ 21
    ∷ 914379 x+ 10
    ∷ 415158 x- 23
    ∷ 903212 x- 42
    ∷ 154165 x- 45
    ∷ 771342 x- 33
    ∷ 848492 x- 46
    ∷ 449558 x+ 34
    ∷ 244824 x- 37
    ∷ 887846 x- 91
    ∷ 950829 x- 33
    ∷ 539428 x- 29
    ∷ 723266 x- 1
    ∷ 375351 x- 68
    ∷ 9002 x- 72
    ∷ 636929 x- 38
    ∷ 916675 x- 19
    ∷ 794479 x+ 88
    ∷ 53474 x+ 28
    ∷ 799817 x+ 6
    ∷ 787148 x+ 42
    ∷ 85087 x+ 40
    ∷ 595055 x- 30
    ∷ 139432 x+ 12
    ∷ 741546 x+ 38
    ∷ 569046 x+ 35
    ∷ 546090 x+ 39
    ∷ 317092 x- 79
    ∷ 436302 x+ 54
    ∷ 830292 x+ 100
    ∷ 624726 x+ 64
    ∷ 241419 x- 94
    ∷ 984569 x- 36
    ∷ 701592 x+ 87
    ∷ 755256 x- 73
    ∷ 927770 x+ 0
    ∷ 561308 x- 86
    ∷ 876882 x+ 67
    ∷ 627821 x+ 96
    ∷ 260825 x+ 48
    ∷ 20579 x- 87
    ∷ 753715 x- 63
    ∷ 891593 x- 22
    ∷ 318865 x- 88
    ∷ 114785 x+ 91
    ∷ 167136 x+ 78
    ∷ []
