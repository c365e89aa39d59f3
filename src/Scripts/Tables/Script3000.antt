-- ===== src/Scripts/Tables/Script3000.antt =====
-- The functions of sample-assets-small/script-0000.js, a row for each line.
use cache_server_go.Base.{List, [], ◌∷◌}
use cache_server_go.Scripts.Fn.{Fn, ◌x+◌, ◌x-◌}

unfoldable pub fns_3000 : List Fn
fns_3000 =
    638876 x- 21
    ∷ 83301 x+ 83
    ∷ 647362 x- 64
    ∷ 603225 x+ 85
    ∷ 442679 x- 44
    ∷ 183777 x+ 73
    ∷ 214563 x- 46
    ∷ 702042 x+ 91
    ∷ 512821 x+ 54
    ∷ 620371 x+ 8
    ∷ 421388 x+ 95
    ∷ 722587 x- 7
    ∷ 995604 x- 44
    ∷ 753530 x+ 68
    ∷ 377623 x- 42
    ∷ 691133 x- 16
    ∷ 705205 x- 18
    ∷ 972298 x- 66
    ∷ 869057 x+ 42
    ∷ 426043 x- 69
    ∷ 80988 x+ 51
    ∷ 917552 x- 83
    ∷ 638270 x+ 37
    ∷ 484452 x+ 19
    ∷ 811584 x+ 71
    ∷ 646401 x- 45
    ∷ 833871 x+ 66
    ∷ 296846 x+ 39
    ∷ 105771 x- 49
    ∷ 155612 x+ 32
    ∷ 177143 x- 20
    ∷ 567495 x+ 76
    ∷ 234571 x- 19
    ∷ 200387 x- 38
    ∷ 550621 x+ 44
    ∷ 626294 x+ 7
    ∷ 68984 x- 49
    ∷ 596168 x- 48
    ∷ 129843 x- 93
    ∷ 635386 x- 99
    ∷ 908014 x- 26
    ∷ 588024 x+ 85
    ∷ 747671 x- 63
    ∷ 816552 x- 100
    ∷ 839972 x- 92
    ∷ 518624 x- 61
    ∷ 785215 x+ 9
    ∷ 8964 x- 12
    ∷ 999750 x- 19
    ∷ 683828 x- 71
    ∷ 543007 x+ 39
    ∷ 453090 x+ 65
    ∷ 606625 x+ 15
    ∷ 732890 x+ 50
    ∷ 392996 x+ 72
    ∷ 594448 x+ 73
    ∷ 101090 x+ 76
    ∷ 33440 x+ 86
    ∷ 854367 x+ 10
    ∷ 129628 x+ 57
    ∷ 405391 x- 76
    ∷ 939465 x+ 51
    ∷ 6426 x- 52
    ∷ 81313 x+ 49
    ∷ 471403 x- 34
    ∷ 629161 x+ 40
    ∷ 757550 x- 36
    ∷ 371785 x+ 62
    ∷ 723102 x+ 71
    ∷ 190731 x+ 65
    ∷ 559907 x- 53
    ∷ 218716 x- 18
    ∷ 629840 x- 33
    ∷ 710736 x+ 54
    ∷ 849644 x- 15
    ∷ 927885 x+ 9
    ∷ 625413 x- 70
    ∷ 679774 x- 63
    ∷ 1782 x+ 24
    ∷ 330154 x- 47
    ∷ 895507 x+ 9
    ∷ 742606 x+ 92
    ∷ 533952 x+ 52
    ∷ 248147 x+ 3
    ∷ 951002 x- 45
    ∷ 138133 x- 33
    ∷ []
