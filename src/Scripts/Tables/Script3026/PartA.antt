-- ===== src/Scripts/Tables/Script3026/PartA.antt =====
-- The functions 0 to 149 of sample-assets-small/script-0026.js, a row for each line.
use cache_server_go.Base.{List, [], ◌∷◌}
use cache_server_go.Scripts.Fn.{Fn, ◌x+◌, ◌x-◌}

unfoldable pub fns_3026_a : List Fn
fns_3026_a =
    538316 x+ 80
    ∷ 799596 x+ 73
    ∷ 390963 x- 46
    ∷ 905975 x- 19
    ∷ 92186 x- 89
    ∷ 238046 x- 86
    ∷ 808527 x+ 87
    ∷ 401804 x- 14
    ∷ 429811 x+ 62
    ∷ 927150 x+ 15
    ∷ 970874 x+ 81
    ∷ 116762 x- 90
    ∷ 351605 x+ 42
    ∷ 137808 x- 11
    ∷ 139406 x- 27
    ∷ 569556 x- 18
    ∷ 628665 x+ 49
    ∷ 475277 x+ 42
    ∷ 516194 x- 20
    ∷ 974749 x- 43
    ∷ 477700 x- 29
    ∷ 7477 x- 91
    ∷ 204317 x+ 54
    ∷ 626092 x+ 8
    ∷ 206554 x- 12
    ∷ 633885 x- 11
    ∷ 787071 x- 15
    ∷ 496421 x- 82
    ∷ 122009 x- 8
    ∷ 268661 x- 6
    ∷ 384070 x- 54
    ∷ 549153 x- 39
    ∷ 70711 x+ 64
    ∷ 530747 x+ 97
    ∷ 775760 x- 73
    ∷ 84512 x- 67
    ∷ 178804 x- 36
    ∷ 820273 x+ 61
    ∷ 280087 x+ 67
    ∷ 494336 x- 40
    ∷ 325873 x- 43
    ∷ 746964 x- 16
    ∷ 279936 x- 4
    ∷ 51299 x- 27
    ∷ 94216 x- 5
    ∷ 175667 x- 27
    ∷ 832874 x- 55
    ∷ 240045 x+ 45
    ∷ 644023 x- 9
    ∷ 467194 x+ 34
    ∷ 393599 x- 44
    ∷ 515676 x- 87
    ∷ 550554 x+ 60
    ∷ 421605 x- 23
    ∷ 859860 x+ 79
    ∷ 660268 x+ 1
    ∷ 876479 x+ 49
    ∷ 211247 x+ 18
    ∷ 739761 x- 3
    ∷ 924529 x+ 19
    ∷ 300846 x- 16
    ∷ 746095 x+ 58
    ∷ 994328 x- 65
    ∷ 545147 x+ 95
    ∷ 291254 x- 38
    ∷ 983286 x+ 50
    ∷ 934163 x- 14
    ∷ 648186 x+ 10
    ∷ 235257 x+ 44
    ∷ 440895 x- 8
    ∷ 834321 x+ 26
    ∷ 481388 x- 15
    ∷ 237324 x- 79
    ∷ 524308 x+ 70
    ∷ 618607 x+ 14
    ∷ 739563 x- 71
    ∷ 498527 x- 17
    ∷ 634941 x+ 37
    ∷ 333349 x+ 12
    ∷ 333225 x+ 96
    ∷ 572721 x+ 36
    ∷ 391898 x- 7
    ∷ 364834 x- 5
    ∷ 32469 x+ 91
    ∷ 396793 x- 96
    ∷ 69019 x+ 31
    ∷ 999807 x+ 100
    ∷ 884095 x- 90
    ∷ 883496 x+ 31
    ∷ 355570 x+ 86
    ∷ 937773 x+ 18
    ∷ 319347 x+ 19
    ∷ 593355 x- 9
    ∷ 296140 x- 94
    ∷ 273465 x- 37
    ∷ 393483 x+ 83
    ∷ 754407 x- 30
    ∷ 29593 x+ 14
    ∷ 958914 x- 1
    ∷ 861363 x+ 3
    ∷ 649841 x+ 64
    ∷ 796823 x+ 46
    ∷ 373374 x+ 72
    ∷ 143571 x+ 71
    ∷ 246425 x+ 96
    ∷ 439578 x+ 3
    ∷ 600234 x+ 9
    ∷ 270493 x+ 75
    ∷ 458969 x+ 72
    ∷ 434617 x+ 35
    ∷ 625946 x+ 23
    ∷ 503794 x- 43
    ∷ 446336 x+ 35
    ∷ 270822 x- 33
    ∷ 692071 x- 61
    ∷ 496797 x+ 34
    ∷ 967592 x+ 77
    ∷ 147540 x- 33
    ∷ 987617 x+ 97
    ∷ 246470 x+ 98
    ∷ 766687 x+ 0
    ∷ 553097 x+ 72
    ∷ 205062 x- 1
    ∷ 572614 x- 80
    ∷ 942953 x+ 22
    ∷ 825178 x+ 56
    ∷ 540834 x- 33
    ∷ 917491 x- 51
    ∷ 111081 x+ 90
    ∷ 362295 x+ 18
    ∷ 491031 x+ 5
    ∷ 606696 x+ 81
    ∷ 486235 x- 46
    ∷ 458376 x+ 65
    ∷ 757436 x- 57
    ∷ 174060 x+ 61
    ∷ 447001 x+ 9
    ∷ 10152 x+ 76
    ∷ 701725 x- 41
    ∷ 226740 x+ 84
    ∷ 420017 x- 99
    ∷ 908097 x- 41
    ∷ 917759 x- 50
    ∷ 221427 x+ 25
    ∷ 3618 x- 22
    ∷ 626206 x- 13
    ∷ 468315 x- 40
    ∷ 137386 x- 8
    ∷ 739958 x- 97
    ∷ 965265 x- 37
    ∷ []
