-- ===== src/Scripts/Tables/Script3012/PartB.antt =====
-- The functions 150 to 291 of sample-assets-small/script-0012.js, a row for each line.
use cache_server_go.Base.{List, [], ◌∷◌}
use cache_server_go.Scripts.Fn.{Fn, ◌x+◌, ◌x-◌}

unfoldable pub fns_3012_b : List Fn
fns_3012_b =
    326411 x- 47
    ∷ 56006 x- 95
    ∷ 51253 x- 3
    ∷ 86848 x- 67
    ∷ 988248 x- 81
    ∷ 307839 x- 49
    ∷ 315829 x- 64
    ∷ 418865 x- 44
    ∷ 273276 x+ 98
    ∷ 389467 x+ 26
    ∷ 660604 x- 60
    ∷ 611969 x+ 4
    ∷ 481052 x- 48
    ∷ 784023 x+ 24
    ∷ 883762 x+ 40
    ∷ 838059 x- 67
    ∷ 487585 x+ 64
    ∷ 114465 x- 1
    ∷ 483606 x- 11
    ∷ 833844 x- 90
    ∷ 365573 x+ 71
    ∷ 966661 x- 55
    ∷ 268549 x- 51
    ∷ 418995 x+ 2
    ∷ 968983 x+ 15
    ∷ 50752 x- 75
    ∷ 795417 x- 49
    ∷ 995040 x- 43
    ∷ 416243 x- 45
    ∷ 802653 x- 27
    ∷ 868154 x- 34
    ∷ 903112 x+ 65
    ∷ 288003 x+ 44
    ∷ 316092 x+ 86
    ∷ 617398 x+ 95
    ∷ 924594 x+ 27
    ∷ 895124 x- 6
    ∷ 35981 x- 40
    ∷ 726255 x- 56
    ∷ 152528 x+ 27
    ∷ 710115 x+ 83
    ∷ 903584 x- 73
    ∷ 230144 x- 68
    ∷ 549570 x- 68
    ∷ 827875 x- 46
    ∷ 602126 x- 68
    ∷ 376733 x+ 92
    ∷ 879158 x+ 12
    ∷ 765836 x- 65
    ∷ 922027 x+ 6
    ∷ 840487 x+ 72
    ∷ 321444 x+ 94
    ∷ 567117 x+ 15
    ∷ 729212 x- 61
    ∷ 946412 x+ 33
    ∷ 894034 x- 37
    ∷ 747182 x+ 49
    ∷ 800688 x+ 36
    ∷ 638756 x- 15
    ∷ 998430 x- 1
    ∷ 572440 x+ 100
    ∷ 860392 x+ 60
    ∷ 355802 x+ 95
    ∷ 918902 x- 2
    ∷ 960751 x+ 77
    ∷ 793536 x- 27
    ∷ 623681 x+ 88
    ∷ 864159 x+ 88
    ∷ 327796 x- 33
    ∷ 131404 x- 98
    ∷ 905734 x- 100
    ∷ 446232 x+ 87
    ∷ 259460 x- 57
    ∷ 774975 x- 69
    ∷ 202938 x+ 40
    ∷ 804142 x- 98
    ∷ 693931 x+ 95
    ∷ 497177 x+ 55
    ∷ 409124 x+ 53
    ∷ 353685 x- 91
    ∷ 632333 x- 88
    ∷ 773122 x- 34
    ∷ 160622 x+ 12
    ∷ 351323 x- 59
    ∷ 310863 x- 83
    ∷ 81205 x- 51
    ∷ 788192 x- 90
    ∷ 657216 x+ 26
    ∷ 4466 x+ 63
    ∷ 190305 x- 28
    ∷ 233119 x+ 26
    ∷ 606216 x- 96
    ∷ 894869 x- 30
    ∷ 702020 x- 64
    ∷ 208115 x- 38
    ∷ 768464 x- 64
    ∷ 380903 x+ 32
    ∷ 422794 x- 14
    ∷ 647117 x+ 32
    ∷ 277601 x+ 39
    ∷ 478612 x+ 61
    ∷ 356739 x- 8
    ∷ 68625 x+ 32
    ∷ 689057 x+ 49
    ∷ 941804 x- 65
    ∷ 297115 x- 23
    ∷ 953727 x- 42
    ∷ 895564 x- 16
    ∷ 15599 x- 7
    ∷ 411219 x+ 55
    ∷ 654360 x- 77
    ∷ 379852 x+ 2
    ∷ 733261 x- 32
    ∷ 971204 x+ 9
    ∷ 730126 x- 43
    ∷ 719590 x- 34
    ∷ 824932 x- 95
    ∷ 165770 x- 40
    ∷ 708592 x+ 57
    ∷ 790352 x+ 8
    ∷ 83637 x+ 53
    ∷ 614453 x+ 18
    ∷ 337392 x+ 1
    ∷ 99332 x+ 36
    ∷ 837243 x+ 88
    ∷ 19752 x+ 91
    ∷ 606588 x- 33
    ∷ 507815 x+ 98
    ∷ 150105 x- 29
    ∷ 521714 x+ 47
    ∷ 509839 x+ 6
    ∷ 978028 x+ 32
    ∷ 621045 x+ 24
    ∷ 177722 x- 39
    ∷ 581704 x+ 85
    ∷ 517035 x- 12
    ∷ 470406 x- 67
    ∷ 469814 x+ 6
    ∷ 551940 x+ 57
    ∷ 116488 x- 93
    ∷ 788635 x- 39
    ∷ 836464 x- 81
    ∷ []
