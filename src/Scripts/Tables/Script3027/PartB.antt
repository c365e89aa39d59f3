-- ===== src/Scripts/Tables/Script3027/PartB.antt =====
-- The functions 150 to 299 of sample-assets-small/script-0027.js, a row for each line.
use cache_server_go.Base.{List, [], ◌∷◌}
use cache_server_go.Scripts.Fn.{Fn, ◌x+◌, ◌x-◌}

unfoldable pub fns_3027_b : List Fn
fns_3027_b =
    757263 x+ 25
    ∷ 680424 x- 7
    ∷ 504410 x- 98
    ∷ 891133 x- 14
    ∷ 452344 x+ 89
    ∷ 185857 x- 15
    ∷ 104038 x+ 60
    ∷ 415307 x- 77
    ∷ 914745 x- 44
    ∷ 99360 x+ 21
    ∷ 711283 x- 60
    ∷ 177544 x+ 100
    ∷ 717711 x- 64
    ∷ 352002 x- 30
    ∷ 266047 x+ 18
    ∷ 115745 x+ 50
    ∷ 121083 x- 74
    ∷ 773547 x+ 19
    ∷ 183209 x- 21
    ∷ 13211 x+ 46
    ∷ 743939 x- 41
    ∷ 762743 x- 40
    ∷ 653322 x+ 21
    ∷ 448749 x- 43
    ∷ 738773 x+ 59
    ∷ 601147 x+ 32
    ∷ 742908 x- 52
    ∷ 47555 x- 59
    ∷ 76779 x- 60
    ∷ 975478 x+ 26
    ∷ 846130 x- 28
    ∷ 386301 x- 67
    ∷ 953518 x+ 60
    ∷ 47943 x+ 24
    ∷ 656904 x- 3
    ∷ 33307 x- 12
    ∷ 196394 x+ 8
    ∷ 644328 x+ 71
    ∷ 812325 x+ 39
    ∷ 109511 x+ 31
    ∷ 725362 x- 31
    ∷ 244032 x- 16
    ∷ 366986 x- 68
    ∷ 615938 x- 6
    ∷ 138213 x- 62
    ∷ 665344 x+ 48
    ∷ 5189 x- 78
    ∷ 327763 x+ 33
    ∷ 219216 x+ 92
    ∷ 58607 x+ 61
    ∷ 528650 x+ 49
    ∷ 455593 x- 29
    ∷ 465976 x- 38
    ∷ 842539 x- 95
    ∷ 117018 x+ 74
    ∷ 218016 x+ 48
    ∷ 306716 x- 77
    ∷ 600300 x- 24
    ∷ 733632 x- 64
    ∷ 152663 x+ 4
    ∷ 764656 x+ 22
    ∷ 98466 x- 26
    ∷ 233443 x- 97
    ∷ 905279 x+ 15
    ∷ 501981 x- 68
    ∷ 833816 x- 20
    ∷ 12597 x+ 87
    ∷ 147085 x- 45
    ∷ 871033 x- 48
    ∷ 150072 x+ 5
    ∷ 994953 x+ 1
    ∷ 996425 x- 17
    ∷ 956848 x- 70
    ∷ 567072 x- 100
    ∷ 497191 x- 80
    ∷ 784167 x+ 44
    ∷ 688807 x- 27
    ∷ 236723 x- 52
    ∷ 740322 x+ 46
    ∷ 299894 x- 6
    ∷ 506405 x- 44
    ∷ 744521 x- 63
    ∷ 396098 x+ 89
    ∷ 230753 x- 100
    ∷ 312206 x- 90
    ∷ 494617 x+ 95
    ∷ 714575 x+ 99
    ∷ 549396 x- 88
    ∷ 43755 x- 34
    ∷ 323167 x+ 56
    ∷ 183419 x+ 6
    ∷ 974889 x+ 90
    ∷ 708300 x+ 2
    ∷ 474889 x+ 83
    ∷ 308674 x+ 76
    ∷ 551397 x- 44
    ∷ 924249 x- 7
    ∷ 79669 x- 11
    ∷ 550131 x+ 58
    ∷ 717650 x- 34
    ∷ 121366 x+ 68
    ∷ 930032 x+ 56
    ∷ 550716 x+ 59
    ∷ 575308 x- 77
    ∷ 371825 x- 17
    ∷ 84655 x+ 91
    ∷ 191738 x- 76
    ∷ 98016 x+ 82
    ∷ 700529 x+ 20
    ∷ 808068 x- 39
    ∷ 456118 x- 25
    ∷ 697074 x+ 44
    ∷ 925403 x- 25
    ∷ 581227 x+ 33
    ∷ 99744 x+ 94
    ∷ 99181 x+ 76
    ∷ 612515 x- 46
    ∷ 942051 x- 2
    ∷ 504414 x+ 95
    ∷ 539139 x+ 30
    ∷ 844368 x+ 26
    ∷ 538711 x- 94
    ∷ 978439 x- 4
    ∷ 613309 x+ 84
    ∷ 750619 x- 41
    ∷ 860383 x- 34
    ∷ 125976 x+ 38
    ∷ 954753 x+ 88
    ∷ 956270 x+ 40
    ∷ 37316 x- 94
    ∷ 395307 x- 10
    ∷ 368220 x+ 38
    ∷ 44726 x- 91
    ∷ 184660 x- 67
    ∷ 614379 x+ 70
    ∷ 376607 x+ 19
    ∷ 490503 x+ 0
    ∷ 580118 x- 34
    ∷ 492144 x- 31
    ∷ 53705 x+ 5
    ∷ 608081 x+ 44
    ∷ 23018 x- 32
    ∷ 841399 x+ 38
    ∷ 219013 x- 98
    ∷ 802432 x+ 15
    ∷ 705985 x+ 55
    ∷ 118597 x- 16
    ∷ 500593 x+ 6
    ∷ 346848 x+ 24
    ∷ 515049 x- 26
    ∷ []
