-- ===== src/Scripts/Tables/Script3010/PartB.antt =====
-- The functions 150 to 299 of sample-assets-small/script-0010.js, a row for each line.
use cache_server_go.Base.{List, [], ◌∷◌}
use cache_server_go.Scripts.Fn.{Fn, ◌x+◌, ◌x-◌}

unfoldable pub fns_3010_b : List Fn
fns_3010_b =
    190684 x- 29
    ∷ 503455 x- 22
    ∷ 123967 x+ 77
    ∷ 293566 x- 28
    ∷ 844455 x+ 29
    ∷ 172402 x- 48
    ∷ 815887 x- 44
    ∷ 801934 x- 75
    ∷ 669696 x- 90
    ∷ 1515 x+ 70
    ∷ 614247 x+ 13
    ∷ 831448 x+ 11
    ∷ 330777 x- 47
    ∷ 654261 x- 29
    ∷ 30372 x+ 79
    ∷ 256954 x- 93
    ∷ 791604 x- 62
    ∷ 745779 x- 31
    ∷ 4047 x+ 81
    ∷ 424558 x+ 16
    ∷ 684258 x- 13
    ∷ 896917 x+ 89
    ∷ 555181 x- 62
    ∷ 156974 x- 21
    ∷ 631187 x- 91
    ∷ 847246 x+ 56
    ∷ 800560 x- 86
    ∷ 673916 x+ 72
    ∷ 657271 x+ 54
    ∷ 411833 x- 92
    ∷ 175750 x+ 80
    ∷ 292849 x- 72
    ∷ 316211 x- 33
    ∷ 852580 x+ 46
    ∷ 545557 x- 1
    ∷ 458928 x- 48
    ∷ 698801 x- 59
    ∷ 772728 x+ 73
    ∷ 579154 x- 36
    ∷ 834377 x+ 71
    ∷ 304970 x+ 63
    ∷ 617583 x+ 79
    ∷ 245312 x+ 7
    ∷ 864933 x- 90
    ∷ 519262 x+ 18
    ∷ 489410 x+ 28
    ∷ 601757 x- 36
    ∷ 647270 x- 53
    ∷ 116408 x- 86
    ∷ 691550 x+ 66
    ∷ 887269 x- 99
    ∷ 18741 x+ 69
    ∷ 277551 x+ 11
    ∷ 254731 x+ 83
    ∷ 867178 x+ 8
    ∷ 923762 x+ 50
    ∷ 105462 x+ 62
    ∷ 170120 x+ 72
    ∷ 852973 x+ 38
    ∷ 403942 x- 58
    ∷ 282000 x+ 44
    ∷ 396688 x- 48
    ∷ 144511 x+ 0
    ∷ 334568 x+ 37
    ∷ 440386 x+ 71
    ∷ 746798 x- 57
    ∷ 239080 x+ 26
    ∷ 749832 x+ 55
    ∷ 888821 x+ 77
    ∷ 281214 x+ 60
    ∷ 617684 x- 45
    ∷ 471912 x+ 54
    ∷ 797887 x+ 0
    ∷ 367727 x+ 80
    ∷ 917621 x+ 96
    ∷ 345835 x+ 19
    ∷ 763878 x- 69
    ∷ 789014 x- 18
    ∷ 90514 x+ 6
    ∷ 765920 x- 65
    ∷ 679120 x- 5
    ∷ 908018 x+ 90
    ∷ 522104 x+ 3
    ∷ 830620 x+ 7
    ∷ 707545 x- 96
    ∷ 167831 x- 19
    ∷ 282920 x- 54
    ∷ 235887 x+ 34
    ∷ 882424 x+ 77
    ∷ 588867 x+ 9
    ∷ 651287 x- 89
    ∷ 619300 x- 73
    ∷ 204641 x- 16
    ∷ 973574 x+ 32
    ∷ 112657 x+ 34
    ∷ 580675 x- 62
    ∷ 45867 x- 20
    ∷ 565163 x+ 5
    ∷ 716640 x+ 42
    ∷ 701216 x+ 53
    ∷ 629041 x+ 58
    ∷ 893384 x- 71
    ∷ 731456 x- 72
    ∷ 513608 x+ 60
    ∷ 56400 x- 59
    ∷ 711262 x- 2
    ∷ 859412 x- 12
    ∷ 1774 x+ 89
    ∷ 275963 x+ 79
    ∷ 474929 x+ 77
    ∷ 501379 x+ 66
    ∷ 268519 x- 9
    ∷ 985617 x+ 90
    ∷ 192282 x- 81
    ∷ 720160 x+ 62
    ∷ 830770 x+ 53
    ∷ 420647 x+ 19
    ∷ 149811 x- 56
    ∷ 782056 x+ 38
    ∷ 114274 x- 59
    ∷ 188960 x+ 63
    ∷ 55341 x+ 96
    ∷ 729476 x- 8
    ∷ 762247 x- 71
    ∷ 566018 x- 47
    ∷ 431422 x- 78
    ∷ 415310 x+ 2
    ∷ 724603 x+ 30
    ∷ 323992 x- 26
    ∷ 507468 x- 29
    ∷ 192538 x+ 50
    ∷ 338602 x+ 50
    ∷ 525448 x+ 29
    ∷ 289664 x- 67
    ∷ 312331 x+ 59
    ∷ 467847 x- 65
    ∷ 934151 x+ 86
    ∷ 480182 x- 10
    ∷ 644816 x+ 73
    ∷ 772930 x+ 95
    ∷ 837112 x+ 14
    ∷ 974665 x- 42
    ∷ 639986 x+ 38
    ∷ 508956 x+ 42
    ∷ 413478 x- 25
    ∷ 836120 x+ 35
    ∷ 450258 x- 76
    ∷ 987020 x- 48
    ∷ 286467 x+ 97
    ∷ 752304 x+ 73
    ∷ []
