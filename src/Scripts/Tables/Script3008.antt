-- ===== src/Scripts/Tables/Script3008.antt =====
-- The functions of sample-assets-small/script-0008.js, a row for each line.
use cache_server_go.Base.{List, [], ◌∷◌}
use cache_server_go.Scripts.Fn.{Fn, ◌x+◌, ◌x-◌}

unfoldable pub fns_3008 : List Fn
fns_3008 =
    261917 x- 94
    ∷ 159039 x- 79
    ∷ 70192 x+ 88
    ∷ 374962 x- 81
    ∷ 944311 x- 20
    ∷ 817115 x+ 55
    ∷ 159231 x+ 34
    ∷ 464403 x- 71
    ∷ 882336 x- 80
    ∷ 986188 x+ 82
    ∷ 562556 x+ 41
    ∷ 61050 x+ 94
    ∷ 956359 x+ 74
    ∷ 168368 x+ 33
    ∷ 610453 x- 15
    ∷ 915807 x+ 55
    ∷ 70182 x+ 82
    ∷ 936827 x- 68
    ∷ 318596 x+ 53
    ∷ 142387 x+ 18
    ∷ 202185 x- 19
    ∷ 345450 x+ 76
    ∷ 41317 x+ 81
    ∷ 854512 x+ 61
    ∷ 488044 x- 8
    ∷ 219198 x- 29
    ∷ 666066 x+ 25
    ∷ 133632 x- 19
    ∷ 782776 x- 41
    ∷ 785045 x+ 9
    ∷ 269039 x+ 13
    ∷ 219390 x+ 36
    ∷ 211868 x- 52
    ∷ 618460 x- 81
    ∷ 961950 x+ 18
    ∷ 644515 x- 58
    ∷ 269 x- 70
    ∷ 899851 x- 83
    ∷ 56887 x- 84
    ∷ 758381 x- 31
    ∷ 59210 x- 80
    ∷ 949180 x+ 9
    ∷ 817274 x- 3
    ∷ 315155 x- 99
    ∷ 631310 x- 50
    ∷ 761672 x+ 10
    ∷ 934367 x+ 68
    ∷ 154435 x+ 35
    ∷ 94417 x- 21
    ∷ 596866 x- 3
    ∷ 289877 x+ 4
    ∷ 382133 x+ 58
    ∷ 573418 x- 69
    ∷ 68466 x- 36
    ∷ 664508 x+ 54
    ∷ 158814 x- 22
    ∷ 954281 x+ 47
    ∷ 944545 x- 70
    ∷ 678952 x- 45
    ∷ 604532 x+ 69
    ∷ 298142 x+ 58
    ∷ 458541 x- 62
    ∷ 605443 x+ 49
    ∷ 15499 x+ 32
    ∷ 847030 x+ 59
    ∷ 584783 x- 60
    ∷ 566885 x+ 59
    ∷ 574790 x- 36
    ∷ 999323 x+ 46
    ∷ 781908 x- 44
    ∷ 16408 x- 76
    ∷ 957586 x+ 3
    ∷ 299191 x- 93
    ∷ 653070 x+ 16
    ∷ 447969 x+ 55
    ∷ 559437 x+ 18
    ∷ 858415 x- 96
    ∷ 594128 x+ 12
    ∷ 938534 x- 77
    ∷ 329307 x+ 42
    ∷ 491544 x- 88
    ∷ 122597 x- 58
    ∷ 193938 x- 11
    ∷ 505892 x- 38
    ∷ 912835 x- 32
    ∷ 737694 x- 87
    ∷ 76932 x- 95
    ∷ 214573 x+ 53
    ∷ 861074 x- 55
    ∷ 487164 x+ 36
    ∷ 573838 x- 47
    ∷ 497533 x+ 7
    ∷ 116168 x+ 36
    ∷ 307937 x+ 87
    ∷ 780278 x+ 15
    ∷ 216385 x- 55
    ∷ 551355 x- 15
    ∷ 532917 x- 19
    ∷ 753104 x- 52
    ∷ 61548 x- 59
    ∷ 317961 x- 35
    ∷ 389231 x+ 73
    ∷ 973807 x+ 58
    ∷ 420292 x+ 26
    ∷ 137704 x- 69
    ∷ 215591 x- 64
    ∷ 75401 x- 25
    ∷ 205539 x- 85
    ∷ 735251 x+ 99
    ∷ 586757 x+ 68
    ∷ 328893 x- 99
    ∷ 357152 x- 69
    ∷ 5558 x- 13
    ∷ 773767 x+ 27
    ∷ 928680 x+ 42
    ∷ 716224 x+ 27
    ∷ 367799 x- 85
    ∷ []
