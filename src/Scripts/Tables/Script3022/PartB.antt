-- ===== src/Scripts/Tables/Script3022/PartB.antt =====
-- The functions 150 to 269 of sample-assets-small/script-0022.js, a row for each line.
use cache_server_go.Base.{List, [], ◌∷◌}
use cache_server_go.Scripts.Fn.{Fn, ◌x+◌, ◌x-◌}

unfoldable pub fns_3022_b : List Fn
fns_3022_b =
    352111 x+ 47
    ∷ 309581 x+ 67
    ∷ 246546 x+ 2
    ∷ 162245 x- 78
    ∷ 337368 x- 48
    ∷ 333560 x+ 93
    ∷ 237195 x- 76
    ∷ 530424 x+ 24
    ∷ 751512 x- 62
    ∷ 769365 x+ 70
    ∷ 172865 x- 19
    ∷ 682336 x+ 39
    ∷ 448748 x+ 38
    ∷ 618885 x+ 11
    ∷ 270227 x+ 63
    ∷ 780072 x- 88
    ∷ 164174 x- 92
    ∷ 200475 x- 60
    ∷ 358339 x- 62
    ∷ 764956 x- 95
    ∷ 680007 x- 98
    ∷ 312785 x+ 8
    ∷ 888799 x- 24
    ∷ 267233 x- 85
    ∷ 9603 x- 45
    ∷ 644456 x+ 1
    ∷ 838569 x+ 83
    ∷ 985966 x- 58
    ∷ 949175 x+ 8
    ∷ 494915 x- 99
    ∷ 800694 x+ 93
    ∷ 472333 x+ 59
    ∷ 815461 x- 41
    ∷ 24598 x+ 2
    ∷ 352117 x- 47
    ∷ 805798 x+ 26
    ∷ 440479 x+ 11
    ∷ 639629 x- 87
    ∷ 274574 x+ 20
    ∷ 645902 x- 44
    ∷ 635660 x- 12
    ∷ 128904 x+ 25
    ∷ 852192 x+ 77
    ∷ 909565 x+ 32
    ∷ 165785 x- 13
    ∷ 699932 x- 11
    ∷ 160851 x- 42
    ∷ 242323 x+ 27
    ∷ 589912 x- 67
    ∷ 902170 x+ 14
    ∷ 365499 x- 7
    ∷ 455463 x- 68
    ∷ 497870 x+ 3
    ∷ 812534 x- 98
    ∷ 95847 x- 9
    ∷ 195442 x+ 38
    ∷ 907926 x+ 15
    ∷ 211232 x+ 46
    ∷ 502282 x- 78
    ∷ 945815 x+ 58
    ∷ 1136 x- 84
    ∷ 793006 x- 67
    ∷ 917424 x- 84
    ∷ 431091 x- 66
    ∷ 628923 x+ 47
    ∷ 205013 x+ 79
    ∷ 316104 x+ 45
    ∷ 884544 x+ 66
    ∷ 892275 x- 37
    ∷ 674862 x- 41
    ∷ 834787 x- 96
    ∷ 795996 x+ 79
    ∷ 926752 x- 88
    ∷ 949652 x+ 88
    ∷ 461812 x+ 63
    ∷ 314990 x- 16
    ∷ 810360 x+ 7
    ∷ 314959 x+ 51
    ∷ 680972 x+ 4
    ∷ 773988 x- 73
    ∷ 779176 x- 28
    ∷ 832514 x+ 80
    ∷ 260505 x- 93
    ∷ 1977 x+ 25
    ∷ 631389 x- 18
    ∷ 439726 x- 43
    ∷ 120792 x+ 61
    ∷ 731115 x- 48
    ∷ 849888 x+ 80
    ∷ 412284 x+ 82
    ∷ 453557 x+ 68
    ∷ 794 x- 57
    ∷ 775601 x- 96
    ∷ 922172 x+ 9
    ∷ 807401 x+ 80
    ∷ 910091 x+ 41
    ∷ 161429 x- 97
    ∷ 219425 x- 32
    ∷ 560133 x- 64
    ∷ 609605 x- 35
    ∷ 136472 x- 11
    ∷ 928443 x+ 19
    ∷ 167111 x+ 91
    ∷ 249999 x+ 31
    ∷ 888416 x+ 24
    ∷ 836330 x- 38
    ∷ 542858 x+ 28
    ∷ 562802 x+ 41
    ∷ 741781 x+ 87
    ∷ 508010 x- 45
    ∷ 649818 x- 19
    ∷ 769732 x+ 53
    ∷ 413815 x+ 61
    ∷ 160949 x+ 64
    ∷ 896934 x- 86
    ∷ 821025 x- 7
    ∷ 768929 x- 23
    ∷ 807157 x- 14
    ∷ 472249 x- 19
    ∷ 535407 x- 46
    ∷ []
