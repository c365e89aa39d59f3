-- ===== src/Scripts/Tables/Script3001/PartB.antt =====
-- The functions 150 to 299 of sample-assets-small/script-0001.js, a row for each line.
use cache_server_go.Base.{List, [], ◌∷◌}
use cache_server_go.Scripts.Fn.{Fn, ◌x+◌, ◌x-◌}

unfoldable pub fns_3001_b : List Fn
fns_3001_b =
    633573 x+ 50
    ∷ 513088 x+ 47
    ∷ 467487 x- 43
    ∷ 796999 x+ 43
    ∷ 291120 x+ 1
    ∷ 459427 x+ 82
    ∷ 682832 x- 41
    ∷ 1114 x- 45
    ∷ 581690 x- 33
    ∷ 504553 x+ 87
    ∷ 436897 x- 36
    ∷ 165966 x+ 2
    ∷ 933538 x+ 42
    ∷ 251458 x+ 85
    ∷ 567653 x- 100
    ∷ 71923 x- 67
    ∷ 414792 x+ 36
    ∷ 104997 x- 27
    ∷ 101590 x- 24
    ∷ 828881 x- 98
    ∷ 203792 x- 25
    ∷ 835312 x- 23
    ∷ 358238 x+ 7
    ∷ 641751 x+ 4
    ∷ 170717 x- 85
    ∷ 780457 x+ 32
    ∷ 290290 x+ 63
    ∷ 516090 x+ 27
    ∷ 965888 x+ 92
    ∷ 439794 x+ 24
    ∷ 322920 x+ 48
    ∷ 172508 x- 70
    ∷ 931614 x- 40
    ∷ 425845 x+ 58
    ∷ 79768 x+ 95
    ∷ 533586 x- 96
    ∷ 37120 x- 20
    ∷ 947173 x+ 34
    ∷ 287714 x- 43
    ∷ 615078 x- 49
    ∷ 263075 x- 26
    ∷ 741580 x- 9
    ∷ 802373 x+ 28
    ∷ 890865 x- 49
    ∷ 757413 x+ 18
    ∷ 941971 x+ 42
    ∷ 772104 x+ 27
    ∷ 92088 x+ 51
    ∷ 840941 x+ 5
    ∷ 491770 x- 42
    ∷ 998680 x+ 7
    ∷ 764306 x- 67
    ∷ 255465 x- 32
    ∷ 103455 x- 86
    ∷ 136501 x- 30
    ∷ 567930 x- 95
    ∷ 131159 x- 61
    ∷ 95353 x- 15
    ∷ 745940 x- 21
    ∷ 127119 x+ 27
    ∷ 292124 x- 28
    ∷ 578103 x+ 37
    ∷ 328925 x+ 58
    ∷ 750824 x+ 15
    ∷ 738730 x- 33
    ∷ 912306 x- 6
    ∷ 550938 x- 90
    ∷ 234490 x- 35
    ∷ 579013 x- 35
    ∷ 547771 x+ 4
    ∷ 867217 x- 53
    ∷ 840631 x+ 61
    ∷ 86321 x- 39
    ∷ 837974 x- 20
    ∷ 787783 x- 88
    ∷ 506194 x+ 2
    ∷ 222381 x+ 71
    ∷ 954831 x+ 44
    ∷ 645584 x- 86
    ∷ 656926 x+ 64
    ∷ 969592 x- 51
    ∷ 311128 x- 72
    ∷ 64403 x- 75
    ∷ 754027 x+ 22
    ∷ 79371 x+ 84
    ∷ 577896 x- 69
    ∷ 704281 x+ 6
    ∷ 160716 x- 52
    ∷ 582467 x- 36
    ∷ 282399 x- 10
    ∷ 162006 x- 25
    ∷ 511745 x- 94
    ∷ 355620 x- 42
    ∷ 681844 x+ 83
    ∷ 863973 x+ 52
    ∷ 149463 x+ 67
    ∷ 836567 x+ 48
    ∷ 88992 x- 75
    ∷ 143187 x+ 99
    ∷ 740354 x- 60
    ∷ 238309 x- 30
    ∷ 732594 x- 90
    ∷ 433992 x+ 81
    ∷ 240566 x- 69
    ∷ 509303 x- 73
    ∷ 422810 x+ 97
    ∷ 379958 x+ 35
    ∷ 410744 x+ 45
    ∷ 321565 x+ 25
    ∷ 852984 x- 59
    ∷ 157177 x- 9
    ∷ 368150 x- 34
    ∷ 395758 x+ 11
    ∷ 549155 x- 3
    ∷ 405910 x+ 35
    ∷ 117534 x- 30
    ∷ 593746 x+ 77
    ∷ 419861 x- 83
    ∷ 39851 x- 44
    ∷ 709080 x+ 37
    ∷ 452779 x- 21
    ∷ 981966 x- 58
    ∷ 394885 x+ 64
    ∷ 279260 x- 7
    ∷ 36662 x- 46
    ∷ 526487 x+ 1
    ∷ 338200 x+ 78
    ∷ 62519 x+ 4
    ∷ 249513 x- 38
    ∷ 41423 x+ 97
    ∷ 639532 x- 49
    ∷ 509246 x- 31
    ∷ 599638 x+ 95
    ∷ 146723 x- 48
    ∷ 972670 x+ 52
    ∷ 741105 x- 28
    ∷ 219553 x+ 9
    ∷ 462185 x- 6
    ∷ 18946 x+ 38
    ∷ 127948 x+ 40
    ∷ 856876 x+ 80
    ∷ 658737 x- 77
    ∷ 935898 x- 66
    ∷ 280859 x+ 54
    ∷ 261113 x+ 83
    ∷ 651747 x+ 92
    ∷ 566474 x+ 40
    ∷ 725282 x+ 4
    ∷ 243133 x+ 99
    ∷ 948784 x+ 2
    ∷ []
