-- ===== src/Scripts/Tables/Script3014/PartB.antt =====
-- The functions 150 to 299 of sample-assets-small/script-0014.js, a row for each line.
use cache_server_go.Base.{List, [], ◌∷◌}
use cache_server_go.Scripts.Fn.{Fn, ◌x+◌, ◌x-◌}

unfoldable pub fns_3014_b : List Fn
fns_3014_b =
    938292 x+ 36
    ∷ 362917 x- 68
    ∷ 595582 x+ 95
    ∷ 563223 x+ 53
    ∷ 81446 x+ 88
    ∷ 417011 x+ 35
    ∷ 911103 x- 62
    ∷ 828676 x- 19
    ∷ 656822 x- 52
    ∷ 456726 x- 50
    ∷ 821397 x+ 50
    ∷ 673016 x- 41
    ∷ 579212 x- 29
    ∷ 465289 x+ 31
    ∷ 168248 x- 44
    ∷ 548300 x- 18
    ∷ 358848 x+ 64
    ∷ 354832 x- 14
    ∷ 526751 x+ 46
    ∷ 91754 x- 15
    ∷ 723085 x+ 42
    ∷ 730633 x- 74
    ∷ 346370 x- 67
    ∷ 177149 x+ 64
    ∷ 557231 x- 61
    ∷ 268475 x- 52
    ∷ 988742 x- 82
    ∷ 754326 x- 86
    ∷ 783038 x+ 63
    ∷ 431489 x- 36
    ∷ 729024 x- 27
    ∷ 270023 x- 5
    ∷ 645797 x+ 27
    ∷ 339145 x+ 15
    ∷ 223319 x- 33
    ∷ 407450 x+ 64
    ∷ 525589 x+ 8
    ∷ 789766 x+ 35
    ∷ 25138 x+ 85
    ∷ 727386 x- 38
    ∷ 682754 x- 71
    ∷ 182989 x+ 47
    ∷ 580667 x- 95
    ∷ 316840 x+ 69
    ∷ 50171 x+ 85
    ∷ 14617 x- 19
    ∷ 649556 x+ 31
    ∷ 633513 x+ 95
    ∷ 790584 x+ 11
    ∷ 878296 x- 67
    ∷ 377459 x+ 94
    ∷ 341589 x+ 18
    ∷ 305874 x+ 9
    ∷ 637334 x- 6
    ∷ 614256 x+ 79
    ∷ 939379 x+ 12
    ∷ 642213 x+ 42
    ∷ 826425 x- 91
    ∷ 539154 x- 8
    ∷ 150980 x+ 21
    ∷ 619172 x+ 93
    ∷ 646952 x- 48
    ∷ 417868 x- 90
    ∷ 896125 x- 47
    ∷ 167698 x+ 72
    ∷ 420662 x+ 51
    ∷ 819652 x- 28
    ∷ 966542 x+ 69
    ∷ 249922 x- 91
    ∷ 318673 x- 100
    ∷ 707437 x- 95
    ∷ 144877 x+ 50
    ∷ 529139 x+ 11
    ∷ 73182 x+ 32
    ∷ 133848 x- 41
    ∷ 332238 x+ 21
    ∷ 794963 x- 83
    ∷ 496963 x- 73
    ∷ 536855 x+ 60
    ∷ 255986 x- 32
    ∷ 134819 x- 18
    ∷ 169345 x+ 7
    ∷ 320327 x+ 65
    ∷ 695300 x+ 10
    ∷ 581026 x- 94
    ∷ 922786 x- 52
    ∷ 133229 x+ 93
    ∷ 921957 x+ 2
    ∷ 510480 x- 99
    ∷ 884649 x+ 12
    ∷ 900343 x+ 23
    ∷ 963549 x- 19
    ∷ 578615 x- 64
    ∷ 809183 x+ 51
    ∷ 965279 x+ 75
    ∷ 776043 x- 55
    ∷ 919681 x- 77
    ∷ 491885 x+ 17
    ∷ 765325 x- 9
    ∷ 452901 x+ 43
    ∷ 177267 x- 91
    ∷ 323074 x+ 19
    ∷ 717966 x- 45
    ∷ 938769 x- 71
    ∷ 995600 x+ 33
    ∷ 543512 x+ 40
    ∷ 914255 x- 37
    ∷ 522331 x- 2
    ∷ 646651 x- 4
    ∷ 887786 x+ 60
    ∷ 62252 x- 42
    ∷ 130422 x+ 66
    ∷ 462831 x- 60
    ∷ 536875 x+ 57
    ∷ 98579 x- 88
    ∷ 80616 x+ 29
    ∷ 540958 x+ 55
    ∷ 560254 x+ 4
    ∷ 313969 x+ 2
    ∷ 378720 x- 82
    ∷ 556580 x+ 56
    ∷ 642888 x+ 15
    ∷ 501741 x+ 2
    ∷ 750407 x- 84
    ∷ 782860 x+ 93
    ∷ 710975 x+ 90
    ∷ 325107 x- 9
    ∷ 129132 x+ 42
    ∷ 340653 x+ 50
    ∷ 51660 x+ 33
    ∷ 874701 x+ 51
    ∷ 17091 x- 71
    ∷ 283386 x+ 73
    ∷ 690414 x+ 19
    ∷ 251864 x+ 63
    ∷ 342589 x+ 37
    ∷ 592212 x- 81
    ∷ 801595 x- 92
    ∷ 222302 x+ 78
    ∷ 905418 x- 16
    ∷ 230232 x- 38
    ∷ 433897 x- 51
    ∷ 746094 x- 42
    ∷ 499298 x- 82
    ∷ 527750 x- 84
    ∷ 878749 x+ 93
    ∷ 764001 x- 77
    ∷ 258944 x- 53
    ∷ 107762 x+ 44
    ∷ 326616 x+ 20
    ∷ []
