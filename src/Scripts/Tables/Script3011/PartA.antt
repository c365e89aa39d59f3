-- ===== src/Scripts/Tables/Script3011/PartA.antt =====
-- The functions 0 to 149 of sample-assets-small/script-0011.js, a row for each line.
use cache_server_go.Base.{List, [], ◌∷◌}
use cache_server_go.Scripts.Fn.{Fn, ◌x+◌, ◌x-◌}

unfoldable pub fns_3011_a : List Fn
fns_3011_a =
    249489 x+ 60
    ∷ 691272 x- 53
    ∷ 888993 x+ 98
    ∷ 607343 x- 83
    ∷ 271197 x+ 30
    ∷ 296242 x- 82
    ∷ 705524 x- 27
    ∷ 256091 x+ 17
    ∷ 219635 x- 72
    ∷ 533437 x+ 43
    ∷ 714076 x+ 39
    ∷ 598163 x- 33
    ∷ 688240 x+ 6
    ∷ 931094 x+ 63
    ∷ 736868 x+ 6
    ∷ 700471 x+ 15
    ∷ 769633 x+ 92
    ∷ 22105 x+ 82
    ∷ 593382 x- 98
    ∷ 531885 x+ 71
    ∷ 150171 x- 56
    ∷ 158249 x+ 21
    ∷ 411986 x- 23
    ∷ 215508 x+ 87
    ∷ 952913 x+ 72
    ∷ 855042 x- 40
    ∷ 854298 x+ 69
    ∷ 702714 x- 44
    ∷ 950521 x- 23
    ∷ 627905 x- 92
    ∷ 267821 x- 2
    ∷ 960932 x+ 32
    ∷ 88797 x+ 2
    ∷ 224890 x- 19
    ∷ 839265 x+ 0
    ∷ 17836 x- 87
    ∷ 683073 x- 74
    ∷ 896241 x- 70
    ∷ 551346 x- 25
    ∷ 638448 x- 31
    ∷ 798543 x- 44
    ∷ 390628 x- 56
    ∷ 234613 x- 25
    ∷ 480555 x- 85
    ∷ 524636 x+ 64
    ∷ 942464 x- 7
    ∷ 614799 x+ 63
    ∷ 678321 x+ 7
    ∷ 769436 x+ 6
    ∷ 344768 x- 69
    ∷ 759719 x- 37
    ∷ 753375 x- 77
    ∷ 286326 x+ 89
    ∷ 504039 x+ 35
    ∷ 49324 x- 38
    ∷ 583728 x- 78
    ∷ 333134 x- 58
    ∷ 122917 x+ 5
    ∷ 644235 x+ 77
    ∷ 520495 x- 26
    ∷ 460659 x- 11
    ∷ 555696 x+ 2
    ∷ 80349 x+ 79
    ∷ 531227 x+ 69
    ∷ 99423 x- 80
    ∷ 446865 x- 9
    ∷ 290372 x- 73
    ∷ 907353 x- 22
    ∷ 666707 x+ 25
    ∷ 164173 x- 97
    ∷ 541080 x- 17
    ∷ 898929 x- 63
    ∷ 261450 x- 90
    ∷ 341163 x+ 61
    ∷ 718441 x- 41
    ∷ 490839 x+ 51
    ∷ 474461 x+ 69
    ∷ 997793 x- 84
    ∷ 960388 x+ 44
    ∷ 337760 x- 20
    ∷ 832445 x+ 45
    ∷ 434978 x+ 64
    ∷ 113892 x- 97
    ∷ 607026 x+ 67
    ∷ 298700 x+ 77
    ∷ 869783 x+ 83
    ∷ 115635 x- 90
    ∷ 552247 x- 57
    ∷ 769259 x- 96
    ∷ 542316 x+ 56
    ∷ 624939 x+ 41
    ∷ 764336 x+ 49
    ∷ 133047 x- 7
    ∷ 85997 x- 18
    ∷ 978063 x+ 58
    ∷ 587365 x+ 74
    ∷ 323613 x- 64
    ∷ 298775 x+ 83
    ∷ 523024 x- 34
    ∷ 75110 x+ 54
    ∷ 414855 x+ 31
    ∷ 945580 x- 37
    ∷ 462064 x- 73
    ∷ 417290 x+ 55
    ∷ 313654 x- 11
    ∷ 573933 x- 16
    ∷ 619560 x- 59
    ∷ 593076 x+ 48
    ∷ 107918 x+ 74
    ∷ 178369 x- 42
    ∷ 227999 x- 65
    ∷ 391537 x- 6
    ∷ 710332 x+ 56
    ∷ 986821 x+ 53
    ∷ 302402 x- 2
    ∷ 602498 x+ 4
    ∷ 168711 x+ 84
    ∷ 412281 x+ 13
    ∷ 788747 x+ 77
    ∷ 854561 x+ 86
    ∷ 979659 x+ 26
    ∷ 22131 x+ 46
    ∷ 715010 x+ 23
    ∷ 929923 x- 74
    ∷ 461290 x+ 3
    ∷ 5561 x+ 100
    ∷ 318195 x+ 43
    ∷ 34599 x+ 20
    ∷ 331084 x- 67
    ∷ 255411 x- 14
    ∷ 915339 x- 55
    ∷ 956846 x+ 83
    ∷ 830476 x+ 14
    ∷ 648899 x- 31
    ∷ 292727 x+ 69
    ∷ 759199 x- 94
    ∷ 317447 x+ 11
    ∷ 819053 x+ 8
    ∷ 377632 x+ 87
    ∷ 996283 x+ 20
    ∷ 200311 x- 50
    ∷ 54603 x+ 31
    ∷ 399969 x+ 94
    ∷ 977840 x- 77
    ∷ 31517 x+ 58
    ∷ 369596 x+ 92
    ∷ 96783 x- 98
    ∷ 88586 x+ 49
    ∷ 770590 x- 14
    ∷ 125207 x- 50
    ∷ []
