-- ===== src/Scripts/Tables/Script3018.antt =====
-- The functions of sample-assets-small/script-0018.js, a row for each line.
use cache_server_go.Base.{List, [], ◌∷◌}
use cache_server_go.Scripts.Fn.{Fn, ◌x+◌, ◌x-◌}

unfoldable pub fns_3018 : List Fn
fns_3018 =
    427300 x- 29
    ∷ 726330 x- 100
    ∷ 130956 x- 62
    ∷ 83441 x- 59
    ∷ 929219 x- 6
    ∷ 23890 x- 20
    ∷ 991698 x- 82
    ∷ 721718 x+ 50
    ∷ 115463 x+ 66
    ∷ 112826 x+ 71
    ∷ 914856 x- 94
    ∷ 919843 x+ 100
    ∷ 231957 x- 44
    ∷ 980895 x- 25
    ∷ 956848 x+ 97
    ∷ 514000 x- 24
    ∷ 588742 x+ 36
    ∷ 124945 x- 5
    ∷ 212352 x+ 10
    ∷ 77828 x- 99
    ∷ 136892 x+ 55
    ∷ 292518 x- 75
    ∷ 425673 x+ 94
    ∷ 789892 x+ 77
    ∷ 350955 x+ 82
    ∷ 342020 x- 83
    ∷ 29503 x- 7
    ∷ 213019 x- 7
    ∷ 232672 x+ 13
    ∷ 691001 x- 43
    ∷ 994786 x+ 78
    ∷ 395621 x- 15
    ∷ 13907 x- 68
    ∷ 529721 x- 10
    ∷ 417272 x+ 55
    ∷ 553887 x+ 66
    ∷ 653884 x- 20
    ∷ 141182 x- 81
    ∷ 482843 x+ 3
    ∷ 25617 x- 2
    ∷ 783522 x- 10
    ∷ 100711 x- 45
    ∷ 760588 x+ 67
    ∷ 989675 x+ 63
    ∷ 113200 x- 86
    ∷ 127175 x- 9
    ∷ 154417 x+ 42
    ∷ 7987 x- 51
    ∷ 114626 x+ 38
    ∷ 587252 x- 48
    ∷ 633777 x+ 31
    ∷ 703284 x- 73
    ∷ 95100 x+ 62
    ∷ 177452 x- 84
    ∷ 242162 x- 71
    ∷ 570361 x+ 85
    ∷ 695131 x- 97
    ∷ 832291 x- 25
    ∷ 885753 x- 41
    ∷ 742267 x+ 91
    ∷ 397329 x+ 6
    ∷ 7947 x+ 67
    ∷ 836516 x- 31
    ∷ 248844 x+ 19
    ∷ 186848 x- 66
    ∷ 905134 x+ 10
    ∷ 623149 x+ 58
    ∷ 31784 x+ 68
    ∷ 193005 x+ 21
    ∷ 201880 x+ 92
    ∷ 764681 x- 70
    ∷ 421247 x+ 80
    ∷ 105167 x- 6
    ∷ 229557 x+ 50
    ∷ 135396 x+ 30
    ∷ 768912 x+ 52
    ∷ 63475 x+ 48
    ∷ 666857 x- 82
    ∷ 26928 x+ 32
    ∷ 242685 x- 17
    ∷ 30095 x- 40
    ∷ 782463 x+ 4
    ∷ 152996 x- 57
    ∷ 575914 x+ 21
    ∷ 160182 x- 8
    ∷ 572592 x+ 8
    ∷ 669621 x+ 2
    ∷ 692275 x+ 49
    ∷ 308109 x+ 26
    ∷ 193750 x+ 12
    ∷ 8916 x+ 61
    ∷ 269441 x+ 9
    ∷ 20960 x+ 89
    ∷ 400257 x+ 17
    ∷ 705459 x- 51
    ∷ 150913 x- 28
    ∷ 144134 x- 66
    ∷ 500633 x- 75
    ∷ 226757 x- 78
    ∷ 518558 x+ 1
    ∷ 234833 x- 80
    ∷ 900904 x- 86
    ∷ 363537 x+ 67
    ∷ 510454 x- 73
    ∷ 589919 x- 88
    ∷ 151835 x- 45
    ∷ 354899 x+ 20
    ∷ 335163 x- 59
    ∷ 261685 x+ 93
    ∷ 308507 x+ 76
    ∷ 739311 x+ 81
    ∷ 711220 x+ 80
    ∷ 461503 x+ 73
    ∷ 473557 x+ 31
    ∷ 573730 x+ 88
    ∷ 128250 x+ 67
    ∷ 739131 x+ 37
    ∷ 601943 x+ 85
    ∷ 911206 x- 19
    ∷ 48578 x+ 76
    ∷ 860654 x- 54
    ∷ 602880 x- 73
    ∷ 23262 x+ 7
    ∷ 865327 x- 17
    ∷ 768634 x+ 71
    ∷ 391037 x+ 77
    ∷ 542985 x- 68
    ∷ 796224 x+ 68
    ∷ 413916 x- 82
    ∷ 747907 x+ 42
    ∷ 163146 x- 43
    ∷ 704890 x+ 85
    ∷ 775828 x- 46
    ∷ 800296 x- 81
    ∷ 338135 x+ 23
    ∷ 668365 x- 100
    ∷ 253539 x+ 76
    ∷ 87841 x+ 5
    ∷ 463521 x- 16
    ∷ 334710 x- 54
    ∷ 258314 x+ 99
    ∷ 383626 x- 59
    ∷ 302289 x- 51
    ∷ 544067 x- 93
    ∷ 161607 x+ 73
    ∷ 711144 x- 60
    ∷ 378712 x+ 92
    ∷ []
