-- ===== src/Scripts/Tables/Script3009/PartA.antt =====
-- The functions 0 to 149 of sample-assets-small/script-0009.js, a row for each line.
use cache_server_go.Base.{List, [], ◌∷◌}
use cache_server_go.Scripts.Fn.{Fn, ◌x+◌, ◌x-◌}

unfoldable pub fns_3009_a : List Fn
fns_3009_a =
    461624 x- 13
    ∷ 667403 x- 72
    ∷ 995978 x+ 95
    ∷ 285728 x+ 13
    ∷ 694738 x- 88
    ∷ 267648 x- 24
    ∷ 23464 x- 98
    ∷ 489164 x- 44
    ∷ 215013 x+ 60
    ∷ 9163 x- 47
    ∷ 715146 x+ 58
    ∷ 487298 x+ 5
    ∷ 47328 x+ 86
    ∷ 405457 x+ 38
    ∷ 405555 x- 50
    ∷ 192631 x- 20
    ∷ 760988 x+ 10
    ∷ 671501 x- 23
    ∷ 14944 x+ 83
    ∷ 485010 x+ 12
    ∷ 724832 x+ 47
    ∷ 333216 x- 8
    ∷ 904994 x- 22
    ∷ 887779 x- 76
    ∷ 501765 x- 100
    ∷ 430752 x+ 86
    ∷ 593567 x+ 5
    ∷ 958444 x+ 58
    ∷ 546045 x- 53
    ∷ 215035 x+ 69
    ∷ 856732 x- 15
    ∷ 436605 x+ 100
    ∷ 799215 x+ 38
    ∷ 245803 x- 38
    ∷ 748989 x+ 5
    ∷ 508601 x- 99
    ∷ 546848 x- 82
    ∷ 851785 x+ 90
    ∷ 165203 x- 22
    ∷ 705638 x+ 55
    ∷ 766611 x+ 81
    ∷ 656816 x- 3
    ∷ 570348 x- 30
    ∷ 457669 x- 76
    ∷ 765948 x+ 25
    ∷ 31424 x- 32
    ∷ 639637 x+ 80
    ∷ 414624 x- 98
    ∷ 210947 x- 19
    ∷ 707218 x+ 26
    ∷ 87441 x- 94
    ∷ 846197 x+ 44
    ∷ 133598 x+ 26
    ∷ 399613 x- 54
    ∷ 553450 x- 55
    ∷ 93981 x- 96
    ∷ 902665 x- 11
    ∷ 687311 x+ 81
    ∷ 213806 x- 3
    ∷ 804452 x- 2
    ∷ 229421 x- 16
    ∷ 523966 x- 89
    ∷ 316 x+ 80
    ∷ 999025 x- 84
    ∷ 431828 x- 32
    ∷ 417663 x- 34
    ∷ 96545 x- 75
    ∷ 898250 x- 65
    ∷ 874088 x- 95
    ∷ 764145 x- 10
    ∷ 418175 x- 27
    ∷ 522836 x+ 97
    ∷ 387429 x+ 2
    ∷ 40105 x+ 8
    ∷ 666959 x- 29
    ∷ 418364 x- 82
    ∷ 150674 x+ 2
    ∷ 524747 x+ 5
    ∷ 947059 x+ 41
    ∷ 453621 x+ 3
    ∷ 9560 x+ 14
    ∷ 299887 x+ 3
    ∷ 807045 x- 94
    ∷ 840903 x+ 17
    ∷ 568709 x+ 15
    ∷ 909415 x- 13
    ∷ 600513 x- 67
    ∷ 854668 x- 10
    ∷ 68943 x+ 11
    ∷ 535251 x+ 76
    ∷ 479294 x- 92
    ∷ 544566 x+ 24
    ∷ 582153 x- 50
    ∷ 968112 x- 46
    ∷ 189066 x- 79
    ∷ 522626 x- 11
    ∷ 403909 x+ 35
    ∷ 137067 x+ 61
    ∷ 850686 x- 90
    ∷ 194884 x+ 76
    ∷ 142695 x+ 40
    ∷ 436093 x+ 22
    ∷ 599364 x+ 70
    ∷ 869020 x+ 28
    ∷ 980772 x- 63
    ∷ 548379 x+ 14
    ∷ 234565 x- 2
    ∷ 287641 x- 72
    ∷ 769886 x- 62
    ∷ 853094 x- 87
    ∷ 164173 x+ 50
    ∷ 453503 x+ 97
    ∷ 610319 x+ 54
    ∷ 287050 x- 12
    ∷ 829422 x+ 11
    ∷ 413513 x+ 78
    ∷ 573647 x- 59
    ∷ 405879 x- 87
    ∷ 692727 x+ 53
    ∷ 583048 x+ 90
    ∷ 594136 x- 83
    ∷ 727019 x- 41
    ∷ 273687 x+ 36
    ∷ 705924 x- 83
    ∷ 35183 x+ 52
    ∷ 115343 x- 65
    ∷ 988353 x- 73
    ∷ 892914 x+ 18
    ∷ 214571 x- 95
    ∷ 928890 x+ 100
    ∷ 72464 x+ 38
    ∷ 496093 x+ 92
    ∷ 78267 x+ 96
    ∷ 898396 x- 84
    ∷ 225490 x- 49
    ∷ 408686 x- 87
    ∷ 66963 x- 53
    ∷ 216675 x+ 11
    ∷ 745553 x- 77
    ∷ 366633 x+ 75
    ∷ 180245 x+ 83
    ∷ 842778 x+ 13
    ∷ 832813 x- 24
    ∷ 283740 x+ 52
    ∷ 954886 x- 45
    ∷ 850976 x+ 14
    ∷ 20000 x- 69
    ∷ 616793 x+ 56
    ∷ 437497 x+ 50
    ∷ 682919 x- 72
    ∷ []
